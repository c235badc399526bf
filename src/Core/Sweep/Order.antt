-- ===== src/Core/Sweep/Order.antt =====
-- The unsettled generations after an identifier, in order: what the pages of a sweep cut.
use service_genai.Prelude.{
  ℕ, zero, suc, ◌≤◌, ◌<◌, ◌≡◌, refl, ap, Bool-cases, inl, inr, Bool, false, List, [], ◌∷◌, ◌++◌,
  arith, All, take, select, length, ltb, if◌then◌else◌, ◌≢◌, ==_refl, leb,
}
use service_genai.Dao.Rows.{Generation}
use service_genai.Dao.Reads.{insert_by_id, sort_by_id}
use service_genai.Dao.Pages.{follows, IsOrdered, insert_by_id-IsOrdered}
use service_genai.Dao.Consistency.{IdsUnique, has_id}
use service_genai.Core.Sweep.{last_id}

abbrev pub drop {ℓ} : {A : Type ℓ} → ℕ → List A → List A
drop zero xs = xs
drop (suc n) [] = []
drop (suc n) (x ∷ xs) = drop n xs

pub take-drop {ℓ} : {A : Type ℓ} (n : ℕ) (xs : List A) → take n xs ++ drop n xs ≡ xs
take-drop zero xs = refl
take-drop (suc n) [] = refl
take-drop (suc n) (x ∷ xs) = ap (λ ys. x ∷ ys) (take-drop n xs)

pub take-all {ℓ} : {A : Type ℓ} (n : ℕ) (xs : List A) → length (take n xs) < n → take n xs ≡ xs
take-all zero xs l = absurd (omega arith)
take-all (suc n) [] l = refl
take-all (suc n) (x ∷ xs) l = ap (λ ys. x ∷ ys) (take-all n xs (omega arith))

abbrev pub after : ℕ → Generation → Bool
after n g = ltb n g.id

-- Strictly in the order of the identifiers.
abbrev pub IsStrict : List Generation → Type 0
IsStrict [] = Unit
IsStrict (g ∷ gs) = All (λ h. g.id < h.id) gs × IsStrict gs

select-insert_by_id :
    (m : ℕ) (g : Generation) (gs : List Generation)
    → IsOrdered gs
    → select (after m) (insert_by_id g gs)
      ≡ (if ltb m g.id then insert_by_id g (select (after m) gs) else select (after m) gs)
unfolding insert_by_id
select-insert_by_id m g [] o = ground arith
select-insert_by_id m g (h ∷ hs) o = ground (arith, select-insert_by_id m g hs o.1)

insert-All :
    (P : Generation → Type 0) (g : Generation) (gs : List Generation)
    → P g
    → All P gs
    → All P (insert_by_id g gs)
unfolding insert_by_id
insert-All P g [] p a = (p, tt)
insert-All P g (h ∷ hs) p a = ground (arith, insert-All P g hs p a.1)

sort-All : (P : Generation → Type 0) (gs : List Generation) → All P gs → All P (sort_by_id gs)
unfolding sort_by_id
sort-All P [] a = tt
sort-All P (g ∷ gs) a = insert-All P g (sort_by_id gs) a.0 (sort-All P gs a.1)

select-All :
    (P : Generation → Type 0) (p : Generation → Bool) (gs : List Generation)
    → All P gs
    → All P (select p gs)
select-All P p [] a = tt
select-All P p (g ∷ gs) a = ground (arith, select-All P p gs a.1)

-- Generations of another identifier.
abbrev Apart : ℕ → Generation → Type 0
Apart id h = id ≢ h.id

has_id-Apart : (id : ℕ) (gs : List Generation) → has_id id gs ≡ false → All (Apart id) gs
has_id-Apart id [] e = tt
has_id-Apart id (g ∷ gs) e =
    (λ p. ground (arith, p, e, ==_refl id), has_id-Apart id gs (ground (arith, e)))

less-All :
    (n m : ℕ) (gs : List Generation) → n ≤ m → All (λ h. m < h.id) gs → All (λ h. n < h.id) gs
less-All n m [] l a = tt
less-All n m (g ∷ gs) l a = (omega arith, less-All n m gs l a.1)

insert-IsStrict :
    (g : Generation) (gs : List Generation)
    → All (Apart g.id) gs
    → IsStrict gs
    → IsStrict (insert_by_id g gs)
unfolding insert_by_id
insert-IsStrict g [] a s = (tt, tt)
insert-IsStrict g (h ∷ hs) a s = elim (Bool-cases (leb g.id h.id)) [
  | inl e ↦
      let less : g.id < h.id = ground (arith, e, a.0) in
      rw e ((less, less-All g.id h.id hs (omega arith) s.0), s)
  | inr e ↦
      let less : h.id < g.id = ground (arith, e) in
      rw e
        (insert-All (λ (b : Generation). h.id < b.id) g hs less s.0, insert-IsStrict g hs a.1 s.1)
]

-- The unsettled generations that follow an identifier, in order.
abbrev pub later : ℕ → List Generation → List Generation
later n gs = sort_by_id (select (follows n) gs)

pub later-IsStrict : (n : ℕ) (gs : List Generation) → IdsUnique gs → IsStrict (later n gs)
unfolding sort_by_id
later-IsStrict n [] u = tt
later-IsStrict n (g ∷ gs) u = elim (Bool-cases (follows n g)) [
  | inl e ↦ rw e (
      insert-IsStrict g (later n gs)
        (sort-All (Apart g.id) (select (follows n) gs)
          (select-All (Apart g.id) (follows n) gs (has_id-Apart g.id gs u.0)))
        (later-IsStrict n gs u.1))
  | inr e ↦ rw e (later-IsStrict n gs u.1)
]

follows-All : (n : ℕ) (gs : List Generation) → All (λ h. n < h.id) (select (follows n) gs)
follows-All n [] = tt
follows-All n (g ∷ gs) = ground (arith, follows-All n gs)

pub later-bound : (n : ℕ) (gs : List Generation) → All (λ h. n < h.id) (later n gs)
later-bound n gs =
    sort-All (λ (h : Generation). n < h.id) (select (follows n) gs) (follows-All n gs)

sort-IsOrdered : (gs : List Generation) → IsOrdered (sort_by_id gs)
unfolding sort_by_id
sort-IsOrdered [] = tt
sort-IsOrdered (g ∷ gs) = insert_by_id-IsOrdered g (sort_by_id gs) (sort-IsOrdered gs)

-- Those after a later identifier are what is left of those after an earlier one.
pub later-later :
    (n m : ℕ) (gs : List Generation) → n ≤ m → later m gs ≡ select (after m) (later n gs)
unfolding sort_by_id
later-later n m [] l = refl
later-later n m (g ∷ gs) l = ground (
  arith,
  later-later n m gs l,
  select-insert_by_id m g (later n gs) (sort-IsOrdered (select (follows n) gs)),
)

pub last_id-bound :
    (n : ℕ) (gs : List Generation) → All (λ h. n < h.id) gs → IsStrict gs → n ≤ last_id n gs
unfolding last_id
last_id-bound n [] a s = omega arith
last_id-bound n (g ∷ gs) a s = omega (arith, last_id-bound g.id gs s.0 s.1, a.0)

select-after : (n : ℕ) (gs : List Generation) → All (λ h. n < h.id) gs → select (after n) gs ≡ gs
select-after n [] a = refl
select-after n (g ∷ gs) a = ground (arith, select-after n gs a.1)

pub take-All {ℓ κ} :
    {A : Type ℓ} (P : A → Type κ) (k : ℕ) (xs : List A) → All P xs → All P (take k xs)
take-All P zero xs a = tt
take-All P (suc k) [] a = tt
take-All P (suc k) (x ∷ xs) a = (a.0, take-All P k xs a.1)

pub take-IsStrict : (k : ℕ) (gs : List Generation) → IsStrict gs → IsStrict (take k gs)
take-IsStrict zero gs s = tt
take-IsStrict (suc k) [] s = tt
take-IsStrict (suc k) (g ∷ gs) s =
    (take-All (λ (h : Generation). g.id < h.id) k gs s.0, take-IsStrict k gs s.1)

-- What follows the last of a page is what the page leaves.
pub select-drop :
    (n k : ℕ) (gs : List Generation)
    → All (λ h. n < h.id) gs
    → IsStrict gs
    → select (after (last_id n (take k gs))) gs ≡ drop k gs
unfolding last_id
select-drop n zero gs a s = select-after n gs a
select-drop n (suc k) [] a s = refl
select-drop n (suc k) (g ∷ gs) a s = ground (
  arith,
  select-drop g.id k gs s.0 s.1,
  last_id-bound g.id (take k gs) (take-All (λ (h : Generation). g.id < h.id) k gs s.0)
      (take-IsStrict k gs s.1),
)

pub drop-IsStrict : (k : ℕ) (gs : List Generation) → IsStrict gs → IsStrict (drop k gs)
drop-IsStrict zero gs s = s
drop-IsStrict (suc k) [] s = tt
drop-IsStrict (suc k) (g ∷ gs) s = drop-IsStrict k gs s.1
