-- ===== src/Dao/SweepLock/Tests.antt =====
-- The leader role over concrete sessions.
use service_genai.Prelude.{
  ℕ, ◌+◌, ◌-◌, ◌≡◌, refl, ◌==◌, ltb, Bool, Bool-cases, inl, inr, true, false, if◌then◌else◌, none,
  some, [], ◌∷◌, arith,
}
use service_genai.Errors.{sentinel, bad_conn}
use service_genai.Action.{ok}
use service_genai.Dao.SweepLock.{Handle, Sessions, lock, lock_of, lock_on, judged, unlock}
use service_genai.Dao.SweepLock.Roles.{IsSessions, Tried, IsLed}
use service_genai.Dao.SweepLock.Leader.{locks, unlocks, start, later, Reach-IsLed, lock-granted}

-- The sessions so far, and the one that holds the role, with how often it took it.
record World : Type 0 where
  opened : ℕ
  holder : ℕ
  count : ℕ

abbrev holds : ℕ → World → ℕ
holds c s = if c == s.holder then s.count else 0

abbrev out : ℕ → World → Bool
out c s = ltb c s.opened

abbrev sessions : Sessions World
sessions = record {
  context = λ s. (ok Handle.pool, s);
  conn = λ s. (ok s.opened, record s { opened = s.opened + 1 });
  query_lock = λ c s.
      if s.count == 0
      then (ok true, record s { holder = c; count = 1 })
      else if c == s.holder
      then (ok true, record s { count = s.count + 1 })
      else (ok false, s);
  query_unlock =
      λ c s. if holds c s == 0 then (ok false, s) else (ok true, record s { count = s.count - 1 });
  close = λ c s. (none, s);
  raw_bad = λ c s. (
    some (sentinel "driver: bad connection" bad_conn),
    if c == s.holder then record s { count = 0 } else s,
  );
}

-- The three answers of the query.
query_lock-Tried : (c : ℕ) (s : World) → Tried holds out c s (sessions.query_lock c s)
query_lock-Tried c s = elim (Bool-cases (s.count == 0)) [
  | inl e ↦
      rw e (λ b n. ground (arith, e), ground (arith, e), refl, λ b n. (ground (arith, e, n), refl))
  | inr e ↦ elim (Bool-cases (c == s.holder)) [
    | inl f ↦
        rw (e, f)
          (
            λ b n. ground (arith, e, f, n),
            ground (arith, e, f),
            refl,
            λ b n. (ground (arith, e, f, n), refl),
          )
    | inr f ↦
        rw (e, f)
          ((s.holder, (λ p. ground (arith, p, f)), λ p. ground (arith, p, e)), λ b. (refl, refl))
  ]
]

sessions-IsSessions : IsSessions holds out sessions
sessions-IsSessions = record {
  context = λ s b. (refl, refl);
  conn = λ s. (ground arith, ground arith, refl, λ b n. (refl, ground (arith, n)));
  query_lock = query_lock-Tried;
  query_unlock = λ c s. ground arith;
  close = λ c s. (refl, λ b n. (refl, refl));
  raw_bad = λ c s. (ground arith, λ b n. ground (arith, n));
}

abbrev opening : World
opening = record { opened = 0; holder = 0; count = 0 }

-- One replica leads, another is refused, and the first gives the role back.
abbrev led : World
led = (lock sessions opening).1

abbrev refused : World
refused = (lock sessions led).1

abbrev free : World
free = (unlock sessions (record { conn = some 0 }) refused).1

Reach-IsLed_example : IsLed holds out [] free
unfolding lock lock_of lock_on judged
Reach-IsLed_example =
    Reach-IsLed holds out (λ i. sessions) (λ i. sessions-IsSessions) opening (λ b. ground arith)
      ([], free)
      (later (later (later start (locks 0 [] opening)) (locks 1 (0 ∷ []) led))
        (unlocks 0 0 [] [] refused))

lock-granted_example : lock sessions opening ≡ (ok (record { conn = some 0 }), led)
unfolding lock lock_of lock_on judged
lock-granted_example =
    lock-granted holds out sessions sessions-IsSessions opening opening
      (record opening { opened = 1 }) led 0 true (λ b. ground arith) refl refl refl
