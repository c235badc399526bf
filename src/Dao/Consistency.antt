-- ===== src/Dao/Consistency.antt =====
-- The invariant of the table `generations`, and what an UPDATE by primary key does to it.
use service_genai.Prelude.{
  ℕ, ◌≡◌, refl, Bool, true, false, ◌&&◌, Option, none, some, List, [], ◌∷◌, arith, ◌==◌, find, any,
  All,
}
use service_genai.Errors.{Bytes}
use service_genai.Dao.Rows.{Generation, Tables, checks, holds_key, is_live}
use service_genai.Dao.Answers.{Answer, row, empty, raised}
use service_genai.Dao.Lifecycle.{
  GenerationSettleRequest, GenerationRecordProviderCallRequest, GenerationRequestCancelRequest,
  update_rows, update, settle_match, settle_set, record_match, record_set, cancel_match, cancel_set,
}
use service_genai.Dao.Submit.{GenerationSubmitRequest, replays, submit, submit_statement, new_row}

-- The row of an identifier.
abbrev pub row_of : ℕ → List Generation → Option Generation
row_of id = find (λ g. g.id == id)

abbrev pub has_id : ℕ → List Generation → Bool
has_id id = any (λ g. g.id == id)

-- The primary key: no identifier twice.
abbrev pub IdsUnique : List Generation → Type 0
IdsUnique [] = Unit
IdsUnique (g ∷ gs) = (has_id g.id gs ≡ false) × IdsUnique gs

-- The partial unique index: no request key twice among the rows that hold theirs.
abbrev pub KeysUnique : List Generation → Type 0
KeysUnique [] = Unit
KeysUnique (g ∷ gs) =
    ((holds_key g.status && any (replays g.request_key) gs) ≡ false) × KeysUnique gs

abbrev pub IsChecked : Generation → Type 0
IsChecked g = checks g ≡ true

-- What PostgreSQL's constraints promise of the table.
pub record IsConsistent (t : Tables) : Type 0 where
  pub checked : All IsChecked t.generations
  pub ids : IdsUnique t.generations
  pub keys : KeysUnique t.generations

-- A change of a row keeps its identifier and its key, and gives no key back.
pub record IsTame (match : Generation → Bool) (change : Generation → Generation) : Type 0 where
  pub same_id : (g : Generation) → (change g).id ≡ g.id
  pub same_key : (g : Generation) → (change g).request_key ≡ g.request_key
  pub live_only : (g : Generation) → match g ≡ true → is_live g.status ≡ true

-- The rows after an UPDATE, whatever its answer.
abbrev pub rows_after : List Generation → Answer (Generation × List Generation) → List Generation
rows_after gs (row (h, hs)) = hs
rows_after gs empty = gs
rows_after gs (raised code) = gs

module _ {match : Generation → Bool} {change : Generation → Generation}
    (tame : IsTame match change) where
  abbrev pub updated : List Generation → List Generation
  updated gs = rows_after gs (update_rows match change gs)

  pub has_id-updated : (id : ℕ) (gs : List Generation) → has_id id (updated gs) ≡ has_id id gs
  unfolding update_rows
  has_id-updated id [] = refl
  has_id-updated id (g ∷ gs) = ground (arith, has_id-updated id gs, tame.same_id g)

  ids-updated : (gs : List Generation) → IdsUnique gs → IdsUnique (updated gs)
  unfolding update_rows
  ids-updated [] u = tt
  ids-updated (g ∷ gs) u =
      ground (arith, ids-updated gs u.1, has_id-updated g.id gs, tame.same_id g)

  IsChecked-updated : (gs : List Generation) → All IsChecked gs → All IsChecked (updated gs)
  unfolding update_rows
  IsChecked-updated [] u = tt
  IsChecked-updated (g ∷ gs) u = ground (arith, IsChecked-updated gs u.1)

  -- No key is held after an UPDATE that was not held before.
  replays-updated :
      (key : Bytes) (gs : List Generation)
      → any (replays key) gs ≡ false
      → any (replays key) (updated gs) ≡ false
  unfolding update_rows
  replays-updated key [] u = refl
  replays-updated key (g ∷ gs) u =
      ground (arith, replays-updated key gs, tame.same_key g, tame.live_only g)

  keys-updated : (gs : List Generation) → KeysUnique gs → KeysUnique (updated gs)
  unfolding update_rows
  keys-updated [] u = tt
  keys-updated (g ∷ gs) u = ground (
    arith,
    keys-updated gs u.1,
    replays-updated g.request_key gs,
    tame.same_key g,
    tame.live_only g,
  )

  pub generations-update :
      (t : Tables) → (update match change t).1.generations ≡ updated t.generations
  unfolding update
  generations-update t = ground arith

  -- An UPDATE keeps the constraints: a row that breaks a CHECK is not written.
  pub update-IsConsistent : {t : Tables} → IsConsistent t → IsConsistent (update match change t).1
  update-IsConsistent {t} c = record {
    checked = rw (generations-update t) (IsChecked-updated t.generations c.checked);
    ids = rw (generations-update t) (ids-updated t.generations c.ids);
    keys = rw (generations-update t) (keys-updated t.generations c.keys);
  }

  -- An UPDATE of live rows leaves a settled row as it is.
  row_of-updated :
      (id : ℕ) (g : Generation) (gs : List Generation)
      → row_of id gs ≡ some g
      → is_live g.status ≡ false
      → row_of id (updated gs) ≡ some g
  unfolding update_rows
  row_of-updated id g [] e dead = e
  row_of-updated id g (h ∷ hs) e dead =
      ground (arith, row_of-updated id g hs, tame.same_id h, tame.live_only h)

  pub row_of-update :
      (id : ℕ) (t : Tables) {g : Generation}
      → row_of id t.generations ≡ some g
      → is_live g.status ≡ false
      → row_of id (update match change t).1.generations ≡ some g
  row_of-update id t {g} e dead =
      rw (generations-update t) (row_of-updated id g t.generations e dead)

pub settle-IsTame :
    (r : GenerationSettleRequest) (at : ℕ) → IsTame (settle_match r) (settle_set r at)
unfolding settle_match settle_set
settle-IsTame r at = record {
  same_id = λ g. refl;
  same_key = λ g. refl;
  live_only = λ g h. ground arith;
}

pub record-IsTame :
    (r : GenerationRecordProviderCallRequest) (at : ℕ) → IsTame (record_match r) (record_set r at)
unfolding record_match record_set
record-IsTame r at = record {
  same_id = λ g. refl;
  same_key = λ g. refl;
  live_only = λ g h. ground arith;
}

pub cancel-IsTame :
    (r : GenerationRequestCancelRequest) (at : ℕ) → IsTame (cancel_match r) (cancel_set r at)
unfolding cancel_match cancel_set
cancel-IsTame r at = record {
  same_id = λ g. refl;
  same_key = λ g. refl;
  live_only = λ g h. ground arith;
}

any_of_find {ℓ} : {A : Type ℓ} (p : A → Bool) (xs : List A) → find p xs ≡ none → any p xs ≡ false
any_of_find p [] e = refl
any_of_find p (x ∷ xs) e = ground (arith, any_of_find p xs)

find_of_any {ℓ} : {A : Type ℓ} (p : A → Bool) (xs : List A) → any p xs ≡ false → find p xs ≡ none
find_of_any p [] e = refl
find_of_any p (x ∷ xs) e = ground (arith, find_of_any p xs)

new_row_fields :
    (r : GenerationSubmitRequest) (at : ℕ)
    → ((new_row r at).id ≡ r.id) × ((new_row r at).request_key ≡ r.request_key)
unfolding new_row
new_row_fields r at = (refl, refl)

-- A submit inserts a row that no constraint refuses, or none.
pub submit-IsConsistent :
    (r : GenerationSubmitRequest) {t : Tables} → IsConsistent t → IsConsistent (submit r t).1
unfolding submit submit_statement
submit-IsConsistent r {t} c =
    ground (arith, any_of_find (replays r.request_key) t.generations, new_row_fields r t.clock)

-- A submit changes no row that is there.
pub row_of-submit :
    (id : ℕ) (r : GenerationSubmitRequest) (t : Tables) {g : Generation}
    → row_of id t.generations ≡ some g
    → row_of id (submit r t).1.generations ≡ some g
unfolding submit submit_statement new_row
row_of-submit id r t {g} e =
    ground (arith, find_of_any (λ (h : Generation). h.id == r.id) t.generations)
