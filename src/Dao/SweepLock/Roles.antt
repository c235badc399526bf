-- ===== src/Dao/SweepLock/Roles.antt =====
-- What the sessions of a lock document, and how many sweeps lead.
use service_genai.Prelude.{
  ℕ, suc, ◌≡◌, ◌≢◌, inl, inr, sym, ==_iff, ==_refl, Bool-cases, ◌∙◌, ◌==◌, Bool, true, false, List,
  [], ◌∷◌, arith,
}
use service_genai.Action.{Res, ok, err}
use service_genai.Dao.SweepLock.{Sessions}

module _ {S : Type 0} (holds : ℕ → S → ℕ) (out : ℕ → S → Bool) where
  -- A session keeps its role, and who has it out of its pool.
  abbrev pub Same : ℕ → S → S → Type 0
  Same c s s' = (holds c s' ≡ holds c s) × (out c s' ≡ out c s)

  abbrev pub Others : ℕ → S → S → Type 0
  Others c s s' = (b : ℕ) → b ≢ c → Same b s s'

  abbrev pub AllSame : S → S → Type 0
  AllSame s s' = (b : ℕ) → Same b s s'

  -- A pool hands out a session that nobody has out.
  abbrev pub Taken : S → Res ℕ × S → Type 0
  Taken s (err e, s') = AllSame s s'
  Taken s (ok c, s') =
      (out c s ≡ false) × (out c s' ≡ true) × (holds c s' ≡ holds c s) × Others c s s'

  -- `pg_try_advisory_lock`: granted when no other session holds the lock, and refused when one does. A
  -- failure does not say which.
  abbrev pub Tried : ℕ → S → Res Bool × S → Type 0
  Tried c s (ok true, s') =
      ((b : ℕ) → b ≢ c → holds b s ≡ 0)
      × (holds c s' ≡ suc (holds c s))
      × (out c s' ≡ out c s)
      × Others c s s'
  Tried c s (ok false, s') = ((b : ℕ) × (b ≢ c) × (holds b s ≢ 0)) × AllSame s s'
  Tried c s (err e, s') = (out c s' ≡ out c s) × Others c s s'

  -- `pg_advisory_unlock`
  abbrev pub Released : ℕ → S → Res Bool × S → Type 0
  Released c s (ok true, s') = (suc (holds c s') ≡ holds c s) × (out c s' ≡ out c s) × Others c s s'
  Released c s (ok false, s') = (holds c s ≡ 0) × AllSame s s'
  Released c s (err e, s') = (out c s' ≡ out c s) × Others c s s'

  -- What PostgreSQL and the pool document, where no session ends but one that is closed for good.
  pub record IsSessions (d : Sessions S) : Type 0 where
    pub context : (s : S) → AllSame s (d.context s).1
    pub conn : (s : S) → Taken s (d.conn s)
    pub query_lock : (c : ℕ) (s : S) → Tried c s (d.query_lock c s)
    pub query_unlock : (c : ℕ) (s : S) → Released c s (d.query_unlock c s)
    pub close : (c : ℕ) (s : S) → (holds c (d.close c s).1 ≡ holds c s) × Others c s (d.close c s).1
    -- A session that ends holds nothing.
    pub raw_bad : (c : ℕ) (s : S) → (holds c (d.raw_bad c s).1 ≡ 0) × Others c s (d.raw_bad c s).1

  -- The sweeps that lead: none, while no session holds the role, or one, whose session alone holds it.
  abbrev pub IsLed : List ℕ → S → Type 0
  IsLed [] s = (b : ℕ) → holds b s ≡ 0
  IsLed (c ∷ []) s = (holds c s ≡ 1) × (out c s ≡ true) × ((b : ℕ) → b ≢ c → holds b s ≡ 0)
  IsLed (c ∷ b ∷ cs) s = ⊥

  pub IsLed-same : (leaders : List ℕ) (s s' : S) → AllSame s s' → IsLed leaders s → IsLed leaders s'
  IsLed-same [] s s' same l = λ b. (same b).0 ∙ l b
  IsLed-same (c ∷ []) s s' same l =
      ((same c).0 ∙ l.0, (same c).1 ∙ l.1, λ b n. (same b).0 ∙ l.2 b n)
  IsLed-same (c ∷ b ∷ cs) s s' same l = absurd l

  pub Others-then : (c : ℕ) (s s' s'' : S) → Others c s s' → Others c s' s'' → Others c s s''
  Others-then c s s' s'' p q b n = ((q b n).0 ∙ (p b n).0, (q b n).1 ∙ (p b n).1)

  -- No session holds the role once the one that may have it does not.
  pub IsLed-dropped :
      (c : ℕ) (s s' : S)
      → ((b : ℕ) → b ≢ c → holds b s ≡ 0)
      → holds c s' ≡ 0
      → Others c s s'
      → IsLed [] s'
  IsLed-dropped c s s' none_else gone others = λ b. elim (Bool-cases (b == c)) [
    | inl e ↦ rw ((==_iff b c).0 e) gone
    | inr e ↦
        let apart : b ≢ c = λ p. ground (arith, p, e, ==_refl c) in
        (others b apart).0 ∙ none_else b apart
  ]

  -- A session outside the role of every sweep.
  abbrev pub IsIdle : List ℕ → ℕ → Type 0
  IsIdle [] c = Unit
  IsIdle (b ∷ bs) c = b ≢ c

  pub holds-idle :
      (leaders : List ℕ) (c : ℕ) (s : S) → IsIdle leaders c → IsLed leaders s → holds c s ≡ 0
  holds-idle [] c s idle l = l c
  holds-idle (b ∷ []) c s idle l = l.2 c (λ p. idle (sym p))
  holds-idle (b ∷ a ∷ bs) c s idle l = absurd l

  -- What a session does outside the roles leaves the sweeps as they are, when it ends without the role.
  pub IsLed-Others :
      (leaders : List ℕ) (c : ℕ) (s s' : S)
      → IsIdle leaders c
      → holds c s' ≡ 0
      → Others c s s'
      → IsLed leaders s
      → IsLed leaders s'
  IsLed-Others [] c s s' idle gone others l = IsLed-dropped c s s' (λ b n. l b) gone others
  IsLed-Others (b ∷ []) c s s' idle gone others l = (
    (others b idle).0 ∙ l.0,
    (others b idle).1 ∙ l.1,
    λ a n. elim (Bool-cases (a == c)) [
      | inl e ↦ rw ((==_iff a c).0 e) gone
      | inr e ↦
          let apart : a ≢ c = λ p. ground (arith, p, e, ==_refl c) in (others a apart).0 ∙ l.2 a n
    ],
  )
  IsLed-Others (b ∷ a ∷ bs) c s s' idle gone others l = absurd l
