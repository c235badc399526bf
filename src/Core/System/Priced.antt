-- ===== src/Core/System/Priced.antt =====
-- `GenerationCheck.Exec` as the check that the services share, over the tables and a count of the starts
-- that providers were asked for.
mod Tests
use service_genai.Prelude.{
  ℕ, suc, ◌≤◌, ◌≡◌, refl, Bool, true, false, Bool-cases, inl, inr, none, List, [], ◌∷◌, arith, ◌==◌,
  length, any, All, ==_iff, subst, if◌then◌else◌,
}
use service_genai.Dao.Rows.{Generation, Tables}
use service_genai.Dao.Steps.{Reach}
use service_genai.Dao.Consistency.{has_id}
use service_genai.Core.Check.Deps.{CheckDeps}
use service_genai.Core.Check.Exec.{exec}
use service_genai.Core.Check.Reach.Commit.{IsAlong}
use service_genai.Core.Check.Reach.Exec.{IsStarted, due-Sendless, sendless-along, exec-along}
use service_genai.Core.System.Sent.{
  World, Counted, IsPriced, IsPaidOnce, Distinct, InTable, has_sent,
}
use service_genai.Core.System.Paid.{ServiceCalls, ServiceCalls-IsPaidOnce}

-- Statements without a start, and statements with one start at most.
abbrev pub Still : Counted → Counted → Type 0
Still s t = Reach s.1 t.1 × (t.0 ≡ s.0)

abbrev pub Paying : Counted → Counted → Type 0
Paying s t = Reach s.1 t.1 × (t.0 ≤ suc s.0)

-- A list without the occurrences of a number.
abbrev without : ℕ → List ℕ → List ℕ
without id [] = []
without id (n ∷ ns) = if n == id then without id ns else n ∷ without id ns

without_absent : (id : ℕ) (ns : List ℕ) → has_sent id ns ≡ false → without id ns ≡ ns
without_absent id [] e = refl
without_absent id (n ∷ ns) e = ground (arith, without_absent id ns)

without_most : (id : ℕ) (ns : List ℕ) → Distinct ns → length ns ≤ suc (length (without id ns))
without_most id [] d = omega arith
without_most id (n ∷ ns) d = elim (Bool-cases (n == id)) [
  | inl e ↦
      let absent =
        without_absent id ns (subst (λ m. has_sent m ns ≡ false) ((==_iff n id).0 e) d.0) in
      ground (arith, e, absent)
  | inr e ↦ ground (arith, e, without_most id ns d.1)
]

has_sent-without :
    (id m : ℕ) (ns : List ℕ) → has_sent m ns ≡ false → has_sent m (without id ns) ≡ false
has_sent-without id m [] e = refl
has_sent-without id m (n ∷ ns) e = ground (arith, has_sent-without id m ns)

Distinct-without : (id : ℕ) (ns : List ℕ) → Distinct ns → Distinct (without id ns)
Distinct-without id [] d = tt
Distinct-without id (n ∷ ns) d = elim (Bool-cases (n == id)) [
  | inl e ↦ rw e (Distinct-without id ns d.1)
  | inr e ↦ rw e (has_sent-without id n ns d.0, Distinct-without id ns d.1)
]

abbrev Among : List Generation → List ℕ → Type 0
Among gs = All (λ id. has_id id gs ≡ true)

Among-without :
    (g : Generation) (gs : List Generation) (ns : List ℕ)
    → Among (g ∷ gs) ns
    → Among gs (without g.id ns)
Among-without g gs [] a = tt
Among-without g gs (n ∷ ns) a = elim (Bool-cases (n == g.id)) [
  | inl e ↦ rw e (Among-without g gs ns a.1)
  | inr e ↦ rw e (ground (arith, e, a.0), Among-without g gs ns a.1)
]

-- Distinct identifiers of rows are at most as many as the rows.
Among-most :
    (gs : List Generation) (ns : List ℕ) → Distinct ns → Among gs ns → length ns ≤ length gs
Among-most [] [] d a = omega arith
Among-most [] (n ∷ ns) d a = absurd (cc a.0)
Among-most (g ∷ gs) ns d a = omega (
  arith,
  without_most g.id ns d,
  Among-most gs (without g.id ns) (Distinct-without g.id ns d) (Among-without g gs ns a),
)

module _ {St : Type 0} (d : CheckDeps Counted St) (along : IsAlong Still d)
    (started : IsStarted Still Paying d) where
  pub exec-IsPriced : IsPriced (exec d)
  exec-IsPriced = record {
    runs = λ r s. (exec-along along started r s).0;
    free = λ g s.
        (sendless-along along (record { generation = g; start = none }) s (due-Sendless g)).1;
    one = λ r s. (exec-along along started r s).1;
  }

  -- Where each thing that a check is given runs statements and counts no start, a connector's start
  -- counts for one, transactions keep PostgreSQL's promise, no row has the identifier that a submit
  -- mints, and the sweep's role and slots start nothing: from a state where this holds, as one before any
  -- start, after any sequence of reads, cancels, submits, resends and sweeps, with any statements of other
  -- processes between them, each generation's check was given a start once at most, each generation that
  -- was given one has its row, and the providers were asked for at most as many starts as checks were
  -- given, so for at most as many as there are generations.
  pub exec-ServiceCalls :
      {w v : World}
      → ServiceCalls (exec d) exec-IsPriced w v
      → IsPaidOnce w
      → IsPaidOnce v × (v.starts ≤ length v.tables.generations)
  exec-ServiceCalls {w} {v} calls p =
      let q = ServiceCalls-IsPaidOnce (exec d) exec-IsPriced calls p in
      (q, omega (arith, q.paid, Among-most v.tables.generations v.sent q.once q.rows))
