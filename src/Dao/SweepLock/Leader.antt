-- ===== src/Dao/SweepLock/Leader.antt =====
-- The sweeps that lead, over the locks and unlocks of any replicas.
use service_genai.Prelude.{
  ℕ, suc, subst, ◌≡◌, inl, inr, ap, Option-cases, ◌∙◌, refl, Bool, true, false, none, some, List,
  [], ◌∷◌, ◌++◌, arith,
}
use service_genai.Action.{Res, ok, err}
use service_genai.Dao.SweepLock.{
  Handle, Sessions, GenerationSweepLock, discard, judged, lock_on, lock_of, lock, released, unlock,
}
use service_genai.Dao.SweepLock.Roles.{
  Others, AllSame, Taken, Tried, Released, IsSessions, IsLed, IsLed-same, Others-then,
  IsLed-dropped, IsIdle, holds-idle, IsLed-Others,
}

-- The sweeps that lead once a lock answers.
abbrev gained : List ℕ → Res GenerationSweepLock → List ℕ
gained leaders (err e) = leaders
gained leaders (ok role) = elim role.conn [ none ↦ leaders | some c ↦ c ∷ leaders ]

module _ {S : Type 0} (holds : ℕ → S → ℕ) (out : ℕ → S → Bool) where
  module _ (d : Sessions S) (sessions : IsSessions holds out d) where
    discard-Others :
        (c : ℕ) (s : S) → (holds c (discard d c s).1 ≡ 0) × Others holds out c s (discard d c s).1
    unfolding discard
    discard-Others c s = elim (Option-cases (d.raw_bad c s).0) [
      | inl e ↦ rw e (sessions.raw_bad c s)
      | inr (x, e) ↦ rw e (sessions.raw_bad c s)
    ]

    -- The query of the lock, on a session that no sweep has.
    judged-IsLed :
        (leaders : List ℕ) (c : ℕ) (s : S) (answer : Res Bool × S)
        → IsIdle holds out leaders c
        → out c s ≡ true
        → IsLed holds out leaders s
        → Tried holds out c s answer
        → IsLed holds out (gained leaders (judged d c answer).0) (judged d c answer).1
    unfolding judged
    judged-IsLed leaders c s (err e, s') idle o l tried =
        let (gone, others) = discard-Others c s' in
        IsLed-Others holds out leaders c s (discard d c s').1 idle gone
          (Others-then holds out c s s' (discard d c s').1 tried.1 others) l
    judged-IsLed leaders c s (ok false, s') idle o l tried =
        let (same, others) = sessions.close c s' in
        IsLed-Others holds out leaders c s (d.close c s').1 idle
          (same ∙ (tried.1 c).0 ∙ holds-idle holds out leaders c s idle l)
          (Others-then holds out c s s' (d.close c s').1 (λ b n. tried.1 b) others) l
    judged-IsLed [] c s (ok true, s') idle o l (free, more, same, others) =
        (more ∙ ap suc (l c), same ∙ o, λ b n. (others b n).0 ∙ l b)
    judged-IsLed (b ∷ []) c s (ok true, s') idle o l (free, more, same, others) =
        absurd (omega (arith, free b idle, l.0))
    judged-IsLed (b ∷ a ∷ bs) c s (ok true, s') idle o l tried = absurd l

    -- A session out of nobody's hands is none of the sweeps'.
    out-IsIdle :
        (leaders : List ℕ) (c : ℕ) (s : S)
        → out c s ≡ false
        → IsLed holds out leaders s
        → IsIdle holds out leaders c
    out-IsIdle [] c s free l = tt
    out-IsIdle (b ∷ []) c s free l = λ p. cc (ap (λ a. out a s) p, free, l.1)
    out-IsIdle (b ∷ a ∷ bs) c s free l = absurd l

    lock_on-IsLed :
        (leaders : List ℕ) (s : S) (taken : Res ℕ × S)
        → IsLed holds out leaders s
        → Taken holds out s taken
        → IsLed holds out (gained leaders (lock_on d taken).0) (lock_on d taken).1
    unfolding lock_on
    lock_on-IsLed leaders s (err e, s') l same = IsLed-same holds out leaders s s' same l
    lock_on-IsLed leaders s (ok c, s') l (free, had, same, others) =
        let idle = out-IsIdle leaders c s free l in
        judged-IsLed leaders c s' (d.query_lock c s') idle had
          (IsLed-Others holds out leaders c s s' idle
            (same ∙ holds-idle holds out leaders c s idle l) others l)
          (sessions.query_lock c s')

    lock_of-IsLed :
        (leaders : List ℕ) (handle : Res Handle × S)
        → IsLed holds out leaders handle.1
        → IsLed holds out (gained leaders (lock_of d handle).0) (lock_of d handle).1
    unfolding lock_of
    lock_of-IsLed leaders (err e, s) l = l
    lock_of-IsLed leaders (ok Handle.transaction, s) l = l
    lock_of-IsLed leaders (ok Handle.pool, s) l =
        lock_on-IsLed leaders s (d.conn s) l (sessions.conn s)

    lock-IsLed :
        (leaders : List ℕ) (s : S)
        → IsLed holds out leaders s
        → IsLed holds out (gained leaders (lock d s).0) (lock d s).1
    unfolding lock
    lock-IsLed leaders s l =
        lock_of-IsLed leaders (d.context s)
          (IsLed-same holds out leaders s (d.context s).1 (sessions.context s) l)

    -- The unlock of the sweep that leads, whatever its query answers.
    released-IsLed :
        (c : ℕ) (s : S) (answer : Res Bool × S)
        → IsLed holds out (c ∷ []) s
        → Released holds out c s answer
        → IsLed holds out [] (released d c answer).1
    unfolding released
    released-IsLed c s (err e, s') l done =
        let (gone, others) = discard-Others c s' in
        IsLed-dropped holds out c s (discard d c s').1 l.2 gone
          (Others-then holds out c s s' (discard d c s').1 done.1 others)
    released-IsLed c s (ok false, s') l done = absurd (omega (arith, done.0, l.0))
    released-IsLed c s (ok true, s') l (less, same, others) =
        let (kept, after) = sessions.close c s' in
        IsLed-dropped holds out c s (d.close c s').1 l.2 (kept ∙ omega (arith, less, l.0))
          (Others-then holds out c s s' (d.close c s').1 others after)

    unlock-IsLed :
        (before after : List ℕ) (c : ℕ) (s : S)
        → IsLed holds out (before ++ c ∷ after) s
        → IsLed holds out (before ++ after) (unlock d (record { conn = some c }) s).1
    unfolding unlock
    unlock-IsLed [] [] c s l = released-IsLed c s (d.query_unlock c s) l (sessions.query_unlock c s)
    unlock-IsLed [] (b ∷ bs) c s l = absurd l
    unlock-IsLed (b ∷ []) after c s l = absurd l
    unlock-IsLed (b ∷ a ∷ bs) after c s l = absurd l

  -- The other work of the replicas: it leaves the role alone, and the sessions that are out.
  abbrev pub Kept : S → S → Type 0
  Kept s s' = (b : ℕ) → (holds b s' ≡ holds b s) × (out b s ≡ true → out b s' ≡ true)

  IsLed-Kept :
      (leaders : List ℕ) (s s' : S)
      → Kept s s'
      → IsLed holds out leaders s
      → IsLed holds out leaders s'
  IsLed-Kept [] s s' kept l = λ b. (kept b).0 ∙ l b
  IsLed-Kept (c ∷ []) s s' kept l = ((kept c).0 ∙ l.0, (kept c).1 l.1, λ b n. (kept b).0 ∙ l.2 b n)
  IsLed-Kept (c ∷ b ∷ cs) s s' kept l = absurd l

  -- The sweeps, by the sessions of their roles, and the state.
  module _ (replicas : ℕ → Sessions S) where
    -- What happens, in any order: a replica asks for the role, a sweep that leads gives it back, and the
    -- replicas do other work.
    pub data Step : List ℕ × S → List ℕ × S → Type 0 where
      locks :
          (i : ℕ) (leaders : List ℕ) (s : S)
          → Step (leaders, s) (gained leaders (lock (replicas i) s).0, (lock (replicas i) s).1)
      unlocks :
          (i c : ℕ) (before after : List ℕ) (s : S)
          → Step
              (before ++ c ∷ after, s)
              (before ++ after, (unlock (replicas i) (record { conn = some c }) s).1)
      works : (leaders : List ℕ) (s s' : S) → Kept s s' → Step (leaders, s) (leaders, s')

    pub data Reach (s : S) : List ℕ × S → Type 0 where
      start : Reach s ([], s)
      later : {x y : List ℕ × S} → Reach s x → Step x y → Reach s y

    Step-IsLed :
        ((i : ℕ) → IsSessions holds out (replicas i))
        → {x y : List ℕ × S} → Step x y
        → IsLed holds out x.0 x.1
        → IsLed holds out y.0 y.1
    Step-IsLed sessions (locks i leaders s) l = lock-IsLed (replicas i) (sessions i) leaders s l
    Step-IsLed sessions (unlocks i c before after s) l =
        unlock-IsLed (replicas i) (sessions i) before after c s l
    Step-IsLed sessions (works leaders s s' kept) l = IsLed-Kept leaders s s' kept l

    -- Where the sessions do what PostgreSQL and the pool document, and no session that is out ends but by
    -- its close, and from a state where no session holds the role: after any sequence of locks and
    -- unlocks of any replicas and of their other work, whatever the queries answered, at most one sweep
    -- leads, its session holds the role, once, and no other session holds it.
    pub Reach-IsLed :
        (sessions : (i : ℕ) → IsSessions holds out (replicas i)) (s : S)
        → IsLed holds out [] s
        → (x : List ℕ × S) → Reach s x
        → IsLed holds out x.0 x.1
    Reach-IsLed sessions s l x start = l
    Reach-IsLed sessions s l y (later r step) =
        Step-IsLed sessions step (Reach-IsLed sessions s l _ r)

  granted :
      (d : Sessions S) (sessions : IsSessions holds out d) (s s' : S) (c : ℕ) (locked : Bool)
      → IsLed holds out [] s
      → d.query_lock c s ≡ (ok locked, s')
      → judged d c (ok locked, s') ≡ (ok (record { conn = some c }), s')
  unfolding judged
  granted d sessions s s' c true l e = refl
  granted d sessions s s' c false l e =
      let refused : Tried holds out c s (ok false, s') =
        subst (Tried holds out c s) e (sessions.query_lock c s) in
      absurd (refused.0.2 (l refused.0.0))

  -- In a state where no session holds the role, and where the sessions do what PostgreSQL and the pool
  -- document, a replica whose context carries its pool, and whose pool and query answer, takes the role.
  pub lock-granted :
      (d : Sessions S) (sessions : IsSessions holds out d) (s r t u : S) (c : ℕ) (locked : Bool)
      → IsLed holds out [] s
      → d.context s ≡ (ok Handle.pool, r)
      → d.conn r ≡ (ok c, t)
      → d.query_lock c t ≡ (ok locked, u)
      → lock d s ≡ (ok (record { conn = some c }), u)
  unfolding lock lock_of lock_on
  lock-granted d sessions s r t u c locked l e f g =
      let taken : Taken holds out r (ok c, t) = subst (Taken holds out r) f (sessions.conn r) in
      let held : AllSame holds out s r =
        subst (λ (x : Res Handle × S). AllSame holds out s x.1) e (sessions.context s) in
      let rest : IsLed holds out [] r = IsLed-same holds out [] s r held l in
      let free : IsLed holds out [] t =
        IsLed-dropped holds out c r t (λ b n. rest b) (taken.2 ∙ rest c) taken.3 in
      rw (e, f, g) (granted d sessions t u c locked free g)
