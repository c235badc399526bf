-- ===== src/Action.antt =====
-- Fallible calls that change a state: what a Go function that returns `(value, error)` is here.
use service_genai.Prelude.{String, ◌≡◌, ◌⊎◌, inl, inr, refl}
use service_genai.Errors.{Err, prefixed}

pub data Res {ℓ} (A : Type ℓ) : Type ℓ where
  ok : A → Res A
  err : Err → Res A

pub Res-cases : {A : Type 0} (r : Res A) → ((a : A) × (r ≡ ok a)) ⊎ ((e : Err) × (r ≡ err e))
Res-cases (ok a) = inl (a, refl)
Res-cases (err e) = inr (e, refl)

-- The state comes back on an error too: what was written stays written.
abbrev pub Action : Type 0 → Type 0 → Type 0
Action S A = S → Res A × S

module _ {S A : Type 0} where
  abbrev pub pure : A → Action S A
  pure a s = (ok a, s)

  abbrev pub raise : Err → Action S A
  raise e s = (err e, s)

  abbrev pub lift : Res A → Action S A
  lift r s = (r, s)

  -- `value, err := call()` where the caller looks at `err` itself.
  abbrev pub attempt : Action S A → Action S (Res A)
  attempt m s = let (r, s') = m s in (ok r, s')

abbrev pub modify : {S : Type 0} → (S → S) → Action S (Unit {0})
modify f s = (ok tt, f s)

-- A bind returns an error of its first call at once, as `if err != nil { return nil, err }` does.
infixl 5 ◌>>=◌ ◌>>◌
abbrev pub ◌>>=◌ : {S A B : Type 0} → Action S A → (A → Action S B) → Action S B
◌>>=◌ m f s = let (r, s') = m s in elim r [ ok a ↦ f a s' | err e ↦ (err e, s') ]

abbrev pub ◌>>◌ : {S A B : Type 0} → Action S A → Action S B → Action S B
m >> k = m >>= λ _. k

-- `if err != nil { return nil, fmt.Errorf("prefix%w", err) }`
abbrev pub wrapped : {S A : Type 0} → String → Res A × S → Res A × S
wrapped prefix (ok a, s) = (ok a, s)
wrapped prefix (err e, s) = (err (prefixed prefix e), s)
