-- ===== src/Dao/Recorded/Once.antt =====
-- Rows that name a generation and an attempt, and their inserts.
use service_genai.Prelude.{
  ℕ, ◌≤◌, ◌≡◌, refl, false, ◌&&◌, List, [], ◌∷◌, arith, ◌==◌, length, select, any, All, inl, inr,
  ◌⊎◌, subst,
}

-- Rows that name a generation and an attempt of it.
module _ {A : Type 0} (generation_of attempt_of : A → ℕ) where
  abbrev pub rows_of : ℕ → List A → List A
  rows_of id = select (λ a. generation_of a == id)

  abbrev pub IsFirst : A → Type 0
  IsFirst a = attempt_of a ≡ 1

  -- Each generation has one row at most, of its first attempt.
  pub record IsOnce (rows : List A) : Type 0 where
    pub firsts : All IsFirst rows
    pub once : (id : ℕ) → length (rows_of id rows) ≤ 1

  -- An insert of a row of the first attempt, of a generation that has none.
  abbrev pub Inserts : List A → List A → Type 0
  Inserts rows [] = rows ≡ []
  Inserts rows (a ∷ rest) =
      (rows ≡ a ∷ rest)
      ⊎ ((rows ≡ rest)
          × IsFirst a
          × (any (λ b. generation_of b == generation_of a && attempt_of b == 1) rest ≡ false))

  none_of_lem :
      (id : ℕ) (rows : List A)
      → All IsFirst rows
      → any (λ b. generation_of b == id && attempt_of b == 1) rows ≡ false
      → rows_of id rows ≡ []
  none_of_lem id [] f e = refl
  none_of_lem id (a ∷ rows) f e = ground (arith, none_of_lem id rows)

  pub Inserts-IsOnce : (rows later : List A) → Inserts rows later → IsOnce rows → IsOnce later
  Inserts-IsOnce rows [] e o = subst IsOnce e o
  Inserts-IsOnce rows (a ∷ rest) (inl e) o = subst IsOnce e o
  Inserts-IsOnce rows (a ∷ rest) (inr (e, first, new)) o = record {
    firsts = (first, subst (All IsFirst) e o.firsts);
    once = λ id.
        let known = subst (λ x. length (rows_of id x) ≤ 1) e (o.once id) in
        let none_yet = none_of_lem (generation_of a) rest (subst (All IsFirst) e o.firsts) new in
        ground (arith, known, none_yet);
  }

  -- The one row of a generation that has one.
  pub Inserts-keeps :
      (id : ℕ) (a : A) (rows later : List A)
      → Inserts rows later
      → IsOnce rows
      → rows_of id rows ≡ a ∷ []
      → rows_of id later ≡ a ∷ []
  Inserts-keeps id a rows [] e o h = subst (λ x. rows_of id x ≡ a ∷ []) e h
  Inserts-keeps id a rows (b ∷ rest) (inl e) o h = subst (λ x. rows_of id x ≡ a ∷ []) e h
  Inserts-keeps id a rows (b ∷ rest) (inr (e, first, new)) o h =
      let known = subst (λ x. rows_of id x ≡ a ∷ []) e h in
      let none_yet = none_of_lem (generation_of b) rest (subst (All IsFirst) e o.firsts) new in
      ground (arith, known, none_yet)

  pub Inserts-refl : (rows : List A) → Inserts rows rows
  Inserts-refl [] = refl
  Inserts-refl (a ∷ rest) = inl refl
