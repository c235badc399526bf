-- ===== src/Dao/InFlight.antt =====
-- The generations in flight of an owner for a purpose, as pg.generationCountLive counts them, over the
-- statements of the program.
use service_genai.Prelude.{
  ℕ, ◌+◌, ◌≤◌, ◌≡◌, refl, Bool, true, false, ◌&&◌, List, [], ◌∷◌, arith, ◌==◌, str_eq, length,
  select, ==_refl,
}
use service_genai.Action.{ok}
use service_genai.Dao.Rows.{Generation, Tables, is_live}
use service_genai.Dao.Lifecycle.{
  GenerationSettleRequest, GenerationRecordProviderCallRequest, GenerationRequestCancelRequest,
  settle, record_provider_call, request_cancel, update, update_rows, settle_set, record_set,
  cancel_set,
}
use service_genai.Dao.Reads.{GenerationCountLiveRequest, counts_live}
use service_genai.Dao.Submit.{
  GenerationSubmitRequest, GenerationSubmitResult, submit, submit_statement, new_row,
}
use service_genai.Dao.Consistency.{
  IsTame, settle-IsTame, record-IsTame, cancel-IsTame, updated, generations-update,
}

-- The rows that a count finds at an instant.
abbrev pub counted : GenerationCountLiveRequest → ℕ → List Generation → ℕ
counted q now gs = length (select (counts_live q now) gs)

abbrev pub in_flight : GenerationCountLiveRequest → Tables → ℕ
in_flight q t = counted q t.clock t.generations

-- A change of the rows that an UPDATE matches, which keeps their owner and their purpose.
abbrev pub IsOwned : (Generation → Generation) → Type 0
IsOwned change =
    (g : Generation) → ((change g).owner_id ≡ g.owner_id) × ((change g).purpose ≡ g.purpose)

live_counts_lem :
    (q : GenerationCountLiveRequest) (now : ℕ) (g h : Generation)
    → h.owner_id ≡ g.owner_id
    → h.purpose ≡ g.purpose
    → is_live g.status ≡ true
    → counts_live q now h ≡ true
    → counts_live q now g ≡ true
unfolding counts_live
live_counts_lem q now g h o p live e = ground arith

module _ {match : Generation → Bool} {change : Generation → Generation} (tame : IsTame match change)
    (owned : IsOwned change) where
  counted-updated :
      (q : GenerationCountLiveRequest) (now : ℕ) (gs : List Generation)
      → counted q now (updated tame gs) ≤ counted q now gs
  unfolding update_rows
  counted-updated q now [] = omega arith
  counted-updated q now (g ∷ gs) = ground (
    arith,
    counted-updated q now gs,
    tame.live_only g,
    live_counts_lem q now g (change g) (owned g).0 (owned g).1,
  )

  clock-update : (t : Tables) → (update match change t).1.clock ≡ t.clock
  unfolding update
  clock-update t = ground arith

  pub in_flight-update :
      (q : GenerationCountLiveRequest) (t : Tables)
      → in_flight q (update match change t).1 ≤ in_flight q t
  in_flight-update q t =
      rw (generations-update tame t, clock-update t) (counted-updated q t.clock t.generations)

pub in_flight-settle :
    (q : GenerationCountLiveRequest) (r : GenerationSettleRequest) (t : Tables)
    → in_flight q (settle r t).1 ≤ in_flight q t
unfolding settle settle_set
in_flight-settle q r t = in_flight-update (settle-IsTame r t.clock) (λ g. (refl, refl)) q t

pub in_flight-record :
    (q : GenerationCountLiveRequest) (r : GenerationRecordProviderCallRequest) (t : Tables)
    → in_flight q (record_provider_call r t).1 ≤ in_flight q t
unfolding record_provider_call record_set
in_flight-record q r t = in_flight-update (record-IsTame r t.clock) (λ g. (refl, refl)) q t

pub in_flight-cancel :
    (q : GenerationCountLiveRequest) (r : GenerationRequestCancelRequest) (t : Tables)
    → in_flight q (request_cancel r t).1 ≤ in_flight q t
unfolding request_cancel cancel_set
in_flight-cancel q r t = in_flight-update (cancel-IsTame r t.clock) (λ g. (refl, refl)) q t

counts_later_lem :
    (q : GenerationCountLiveRequest) (now n : ℕ) (g : Generation)
    → counts_live q (now + n) g ≡ true
    → counts_live q now g ≡ true
unfolding counts_live
counts_later_lem q now n g e = ground arith

pub counted-later :
    (q : GenerationCountLiveRequest) (now n : ℕ) (gs : List Generation)
    → counted q (now + n) gs ≤ counted q now gs
counted-later q now n [] = omega arith
counted-later q now n (g ∷ gs) =
    ground (arith, counted-later q now n gs, counts_later_lem q now n g)

-- A submit that created nothing changed nothing.
pub submit-replayed :
    (r : GenerationSubmitRequest) (t u : Tables) (result : GenerationSubmitResult)
    → submit r t ≡ (ok result, u)
    → result.created ≡ false
    → u ≡ t
unfolding submit submit_statement new_row
submit-replayed r t u result e c = ground (arith, ==_refl r.id)

-- A submit for another owner or purpose adds nothing to the count.
pub in_flight-submit :
    (q : GenerationCountLiveRequest) (r : GenerationSubmitRequest) (t : Tables)
    → (r.owner_id == q.owner_id && str_eq r.purpose q.purpose) ≡ false
    → in_flight q (submit r t).1 ≤ in_flight q t
unfolding submit submit_statement new_row counts_live
in_flight-submit q r t other = ground arith
