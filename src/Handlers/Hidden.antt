-- ===== src/Handlers/Hidden.antt =====
-- What Get, Cancel and Stream answer, over the tables, to a caller that does not own a generation.
use service_genai.Prelude.{
  ℕ, ◌≡◌, refl, String, Bool, true, ◌&&◌, Option, none, some, List, [], ◌∷◌, arith, find, ◌==◌,
}
use service_genai.Prelude.Int.{ℤ}
use service_genai.Errors.{wraps, not_found}
use service_genai.Action.{Action, Res, ok, err}
use service_genai.Connectors.{Registry, Streaming}
use service_genai.Dao.Rows
use service_genai.Dao.Rows.{Tables}
use service_genai.Dao.Answers.{empty}
use service_genai.Dao.Lifecycle.{
  GenerationRequestCancelRequest, request_cancel, cancel_match, cancel_set, update, update_rows,
}
use service_genai.Dao.Reads.{get, attempt_list}
use service_genai.Core.Check.Deps.{CheckRequest, Captured}
use service_genai.Core.Check.Outcome.{generation_cancelled_reason}
use service_genai.Core.Cancel
use service_genai.Core.Cancel.{CancelDeps}
use service_genai.Core.Cancel.Settled.{over_tables}
use service_genai.Core.Get
use service_genai.Core.Get.{GetDeps}
use service_genai.Core.Stream
use service_genai.Core.Stream.{StreamDeps}
use service_genai.Handlers.{Code, status}
use service_genai.Handlers.Read.{Ids, generation_get, generation_cancel, with_ids, generation_reply}
use service_genai.Handlers.Stream.{
  Caller, Ended, replied, generation_stream, stream_generation, stream_status, error_status,
}

-- A get over the tables, with any check.
abbrev pub get_over_tables : (CheckRequest → Action Tables Rows.Generation) → GetDeps Tables
get_over_tables check = record {
  dao = get;
  dao_attempt_list = attempt_list;
  service_check = check;
  validate = λ r. none;
}

-- A stream over the tables, with any connectors.
abbrev pub stream_over_tables :
    Registry Tables Captured (Streaming (Option Ended × Tables))
    → StreamDeps Tables (Option Ended × Tables)
stream_over_tables registry = record { dao = get; registry = registry; validate = λ r. none }

abbrev pub owned : ℕ → ℕ → Rows.Generation → Bool
owned id owner g = g.id == id && g.owner_id == owner

-- The caller owns no generation with this identifier, whether or not another caller does.
abbrev pub IsHidden : ℕ → ℕ → Tables → Type 0
IsHidden id owner t = find (owned id owner) t.generations ≡ none

update_rows-hidden :
    (r : GenerationRequestCancelRequest) (change : Rows.Generation → Rows.Generation)
    (gs : List Rows.Generation)
    → find (owned r.id r.owner_id) gs ≡ none
    → update_rows (cancel_match r) change gs ≡ empty
unfolding update_rows cancel_match
update_rows-hidden r change [] h = refl
update_rows-hidden r change (g ∷ gs) h = ground (arith, update_rows-hidden r change gs)

abbrev Unseen : {A : Type 0} → Res A × Tables → Tables → Type 0
Unseen (ok a, t') t = ⊥
Unseen (err e, t') t = (wraps not_found e ≡ true) × (t' ≡ t)

get-hidden :
    (check : CheckRequest → Action Tables Rows.Generation) (r : Get.GenerationGetRequest)
    (t : Tables)
    → IsHidden r.id r.owner_id t
    → Unseen (Get.exec (get_over_tables check) r t) t
unfolding Get.exec Get.read get wraps
get-hidden check r t h = ground (arith, h)

cancel-hidden :
    (check : CheckRequest → Action Tables Rows.Generation) (retention : ℕ)
    (r : Cancel.GenerationCancelRequest) (t : Tables)
    → IsHidden r.id r.owner_id t
    → Unseen (Cancel.exec (over_tables check retention) r t) t
unfolding Cancel.exec Cancel.request request_cancel update get wraps
cancel-hidden check retention r t h =
    let cr : GenerationRequestCancelRequest = record {
      id = r.id;
      owner_id = r.owner_id;
      error = generation_cancelled_reason;
      retention = retention;
    } in
    ground (arith, update_rows-hidden cr (cancel_set cr t.clock) t.generations h, h)

generation_reply-Unseen :
    (ids : Ids) (x : Res _ × Tables) (t : Tables)
    → Unseen x t
    → (generation_reply ids x.0 ≡ status Code.not_found "generation not found") × (x.1 ≡ t)
unfolding generation_reply
generation_reply-Unseen ids (ok g, t') t u = absurd u
generation_reply-Unseen ids (err e, t') t u = ground (arith, u.0, u.1)

stream-hidden :
    (registry : Registry Tables Captured (Streaming (Option Ended × Tables)))
    (r : Stream.GenerationStreamRequest) (t : Tables)
    → IsHidden r.id r.owner_id t
    → Unseen (Stream.exec (stream_over_tables registry) r t) t
unfolding Stream.exec get wraps
stream-hidden registry r t h = ground (arith, h)

-- To a caller that owns no generation with an identifier, whether or not another caller owns one, where
-- both identifiers are read and the struct validation accepts the request, Get, Cancel and Stream answer
-- that the generation is not found, with one message, and change nothing. The stream's caller is still
-- there.
pub others_are_hidden :
    (ids : Ids) (check : CheckRequest → Action Tables Rows.Generation) (retention : ℕ)
    (registry : Registry Tables Captured (Streaming (Option Ended × Tables)))
    (caller : Caller Tables) (id owner_id : String) (i owner : ℕ) (after : Option ℤ) (t : Tables)
    → ids.parse id ≡ some i
    → ids.parse owner_id ≡ some owner
    → caller.context t ≡ none
    → IsHidden i owner t
    → let hidden = status Code.not_found "generation not found" in
      (generation_get ids (Get.exec (get_over_tables check)) id owner_id t ≡ (hidden, t))
      × (generation_cancel ids (Cancel.exec (over_tables check retention)) id owner_id t
          ≡ (hidden, t))
      × (generation_stream caller ids
            (Stream.exec (stream_over_tables registry))
            id
            owner_id
            after
            t
          ≡ (replied (status Code.not_found "generation not found"), t))
unfolding generation_get generation_cancel generation_stream with_ids stream_generation
    stream_status error_status
others_are_hidden ids check retention registry caller id owner_id i owner after t p q c h =
    let r : Get.GenerationGetRequest = record { id = i; owner_id = owner } in
    let cr : Cancel.GenerationCancelRequest = record { id = i; owner_id = owner } in
    let sr : Stream.GenerationStreamRequest = record {
      id = i;
      owner_id = owner;
      starting_after = after;
    } in
    (
      ground (
        arith,
        p,
        q,
        generation_reply-Unseen ids (Get.exec (get_over_tables check) r t) t
            (get-hidden check r t h),
      ),
      ground (
        arith,
        p,
        q,
        generation_reply-Unseen ids (Cancel.exec (over_tables check retention) cr t) t
            (cancel-hidden check retention cr t h),
      ),
      ground (arith, p, q, c, stream-hidden registry sr t h),
    )
