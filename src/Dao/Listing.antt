-- ===== src/Dao/Listing.antt =====
-- The list of pg.generationAttemptList: the answers of a generation.
use service_genai.Prelude.{
  ℕ, zero, suc, ◌≤◌, ◌≡◌, refl, inl, inr, Bool, List, [], ◌∷◌, arith, All, take, select, length,
  ◌==◌, leb, Bool-cases,
}
use mathlib.Core.List.{Perm}
use mathlib.Core.List.Perm
use service_genai.Action.{ok}
use service_genai.Dao.Rows.{GenerationAttempt, Tables}
use service_genai.Dao.Reads.{insert_by_attempt, sort_by_attempt, attempts_of, attempt_list}

abbrev pub is_of : ℕ → GenerationAttempt → Bool
is_of id a = a.generation_id == id

-- The earlier attempt first.
abbrev pub IsAscending : List GenerationAttempt → Type 0
IsAscending [] = Unit
IsAscending (a ∷ as') = All (λ b. a.attempt ≤ b.attempt) as' × IsAscending as'

-- Answers of a generation, in order, a hundred at most, and each of its rows once when they are no
-- more than that.
abbrev pub IsListing : ℕ → List GenerationAttempt → List GenerationAttempt → Type 0
IsListing id rows page =
    All (λ a. a.generation_id ≡ id) page
    × IsAscending page
    × (length page ≤ 100)
    × (length (select (is_of id) rows) ≤ 100 → Perm page (select (is_of id) rows))

insert_by_attempt-Perm :
    (a : GenerationAttempt) (bs : List GenerationAttempt) → Perm (insert_by_attempt a bs) (a ∷ bs)
unfolding insert_by_attempt
insert_by_attempt-Perm a [] = Perm.refl (a ∷ [])
insert_by_attempt-Perm a (b ∷ bs) = elim (Bool-cases (leb a.attempt b.attempt)) [
  | inl e ↦ rw e (Perm.refl (a ∷ b ∷ bs))
  | inr e ↦ rw e (Perm.trans (Perm.cons b (insert_by_attempt-Perm a bs)) (Perm.swap a b bs))
]

insert_by_attempt-bound :
    (n : ℕ) (a : GenerationAttempt) (bs : List GenerationAttempt)
    → n ≤ a.attempt
    → All (λ b. n ≤ b.attempt) bs
    → All (λ b. n ≤ b.attempt) (insert_by_attempt a bs)
unfolding insert_by_attempt
insert_by_attempt-bound n a [] h all = (h, tt)
insert_by_attempt-bound n a (b ∷ bs) h all = ground (arith, insert_by_attempt-bound n a bs h all.1)

bound-le :
    (n m : ℕ) (bs : List GenerationAttempt)
    → n ≤ m
    → All (λ b. m ≤ b.attempt) bs
    → All (λ b. n ≤ b.attempt) bs
bound-le n m [] h all = tt
bound-le n m (b ∷ bs) h all = (omega arith, bound-le n m bs h all.1)

insert_by_attempt-IsAscending :
    (a : GenerationAttempt) (bs : List GenerationAttempt)
    → IsAscending bs
    → IsAscending (insert_by_attempt a bs)
unfolding insert_by_attempt
insert_by_attempt-IsAscending a [] s = (tt, tt)
insert_by_attempt-IsAscending a (b ∷ bs) s = ground (
  arith,
  insert_by_attempt-IsAscending a bs s.1,
  insert_by_attempt-bound b.attempt a bs,
  bound-le a.attempt b.attempt bs,
)

insert_by_attempt-of :
    (id : ℕ) (a : GenerationAttempt) (bs : List GenerationAttempt)
    → a.generation_id ≡ id
    → All (λ b. b.generation_id ≡ id) bs
    → All (λ b. b.generation_id ≡ id) (insert_by_attempt a bs)
unfolding insert_by_attempt
insert_by_attempt-of id a [] h all = (h, tt)
insert_by_attempt-of id a (b ∷ bs) h all = ground (arith, insert_by_attempt-of id a bs h all.1)

length-insert_by_attempt :
    (a : GenerationAttempt) (bs : List GenerationAttempt)
    → length (insert_by_attempt a bs) ≡ suc (length bs)
unfolding insert_by_attempt
length-insert_by_attempt a [] = refl
length-insert_by_attempt a (b ∷ bs) = ground (arith, length-insert_by_attempt a bs)

sort_by_attempt_lem :
    (id : ℕ) (as' : List GenerationAttempt)
    → All (λ a. a.generation_id ≡ id) as'
    → All (λ a. a.generation_id ≡ id) (sort_by_attempt as')
      × IsAscending (sort_by_attempt as')
      × (length (sort_by_attempt as') ≡ length as')
      × Perm (sort_by_attempt as') as'
unfolding sort_by_attempt
sort_by_attempt_lem id [] all = (tt, tt, refl, Perm.refl [])
sort_by_attempt_lem id (a ∷ as') all =
    let (of_id, ascending, same, perm) = sort_by_attempt_lem id as' all.1 in
    let rest = sort_by_attempt as' in
    (
      insert_by_attempt-of id a rest all.0 of_id,
      insert_by_attempt-IsAscending a rest ascending,
      omega (arith, length-insert_by_attempt a rest, same),
      Perm.trans (insert_by_attempt-Perm a rest) (Perm.cons a perm),
    )

take-All :
    (P : GenerationAttempt → Type 0) (n : ℕ) (as' : List GenerationAttempt)
    → All P as'
    → All P (take n as')
take-All P zero as' all = tt
take-All P (suc n) [] all = tt
take-All P (suc n) (a ∷ as') all = (all.0, take-All P n as' all.1)

take-IsAscending :
    (n : ℕ) (as' : List GenerationAttempt)
    → IsAscending as'
    → IsAscending (take n as') × (length (take n as') ≤ n)
take-IsAscending zero as' s = (tt, omega arith)
take-IsAscending (suc n) [] s = (tt, omega arith)
take-IsAscending (suc n) (a ∷ as') s =
    let (ascending, most) = take-IsAscending n as' s.1 in
    ((take-All (λ b. a.attempt ≤ b.attempt) n as' s.0, ascending), omega arith)

take-all : (n : ℕ) (as' : List GenerationAttempt) → length as' ≤ n → take n as' ≡ as'
take-all zero [] h = refl
take-all zero (a ∷ as') h = absurd (omega arith)
take-all (suc n) [] h = refl
take-all (suc n) (a ∷ as') h = rw (take-all n as' (omega arith)) refl

select-of :
    (id : ℕ) (rows : List GenerationAttempt)
    → All (λ a. a.generation_id ≡ id) (select (is_of id) rows)
select-of id [] = tt
select-of id (a ∷ rows) = ground (arith, select-of id rows)

-- The list of a generation's answers changes nothing and holds rows of that generation alone, in the
-- order of the attempts and a hundred at most, whatever the order in which they were inserted. When
-- the generation has no more than a hundred rows, each of them is there once.
pub attempt_list-IsListing :
    (id : ℕ) (t : Tables)
    → (page : List GenerationAttempt) × (attempt_list id t ≡ (ok page, t))
      × IsListing id t.attempts page
unfolding attempt_list attempts_of
attempt_list-IsListing id t =
    let rows = select (is_of id) t.attempts in
    let sorted = sort_by_attempt rows in
    let (of_id, ascending, same, perm) = sort_by_attempt_lem id rows (select-of id t.attempts) in
    let (in_order, most) = take-IsAscending 100 sorted ascending in
    (
      take 100 sorted,
      refl,
      (
        take-All (λ a. a.generation_id ≡ id) 100 sorted of_id,
        in_order,
        most,
        λ few. rw (take-all 100 sorted (omega (arith, few, same))) perm,
      ),
    )
