-- ===== src/Dao/Reads.antt =====
-- The reads of internal/dao: one generation, a page of a sweep, the live count, the queue depth,
-- the attempts of a generation and the usage over windows.
use service_genai.Prelude.{
  ℕ, ◌+◌, min, String, Bool, false, ◌&&◌, ◌||◌, Option, none, some, List, [], ◌∷◌, map,
  if◌then◌else◌, ◌==◌, ltb, leb, str_eq, length, take, find, select,
}
use service_genai.Prelude.Int.{ℤ, pos, ◌+ℤ◌}
use service_genai.Errors.{sentinel, not_found}
use service_genai.Action.{Action, ok}
use service_genai.Dao.Rows.{Generation, GenerationAttempt, GenerationUsage, Tables, is_live}
use service_genai.Dao.Answers.{Answer, row, empty, scan, unjudged}

pub record GenerationGetRequest : Type 0 where
  pub id : ℕ
  pub owner_id : ℕ

abbrev answer_of : {A : Type 0} → Option A → Answer A
answer_of none = empty
answer_of (some a) = row a

abbrev stamped : ℕ → Option Generation → Option Generation
stamped at none = none
stamped at (some g) = some (record g { read_at = at })

-- `PgGenerationGet.Exec`: the owner stands in the WHERE, and the row carries the clock.
unfoldable pub get : GenerationGetRequest → Action Tables Generation
get r t = (
  scan unjudged (sentinel "generation not found" not_found) (
      answer_of
        (stamped t.clock (find (λ g. g.id == r.id && g.owner_id == r.owner_id) t.generations))),
  t,
)

-- `ORDER BY id`
unfoldable pub insert_by_id : Generation → List Generation → List Generation
insert_by_id g [] = g ∷ []
insert_by_id g (h ∷ hs) = if leb g.id h.id then g ∷ h ∷ hs else h ∷ insert_by_id g hs

unfoldable pub sort_by_id : List Generation → List Generation
sort_by_id [] = []
sort_by_id (g ∷ gs) = insert_by_id g (sort_by_id gs)

abbrev pub stamp : ℕ → Generation → Generation
stamp at g = record g { read_at = at }

pub record GenerationSweepRequest : Type 0 where
  pub after : ℕ
  pub limit : ℕ

-- `PgGenerationSweep.Exec`: unsettled generations after an id, in id order, stamped with the clock.
unfoldable pub sweep : GenerationSweepRequest → Action Tables (List Generation)
sweep r t = (
  ok (
      map (stamp t.clock) (
        take r.limit
          (sort_by_id (select (λ g. is_live g.status && ltb r.after g.id) t.generations)))),
  t,
)

pub record GenerationCountLiveRequest : Type 0 where
  pub owner_id : ℕ
  pub purpose : String
  pub unknown_outcome_window : ℕ

-- `outcome_unknown_at > CURRENT_TIMESTAMP - window`, false on a null.
abbrev within : ℕ → ℕ → Option ℕ → Bool
within now window none = false
within now window (some at) = ltb now (at + window)

unfoldable pub counts_live : GenerationCountLiveRequest → ℕ → Generation → Bool
counts_live r now g =
    g.owner_id == r.owner_id
    && str_eq g.purpose r.purpose
    && (is_live g.status || within now r.unknown_outcome_window g.outcome_unknown_at)

-- `PgGenerationCountLive.Exec`
unfoldable pub count_live : GenerationCountLiveRequest → Action Tables ℕ
count_live r t = (ok (length (select (counts_live r t.clock) t.generations)), t)

-- `ORDER BY attempt`
unfoldable pub insert_by_attempt :
    GenerationAttempt → List GenerationAttempt → List GenerationAttempt
insert_by_attempt a [] = a ∷ []
insert_by_attempt a (b ∷ bs) =
    if leb a.attempt b.attempt then a ∷ b ∷ bs else b ∷ insert_by_attempt a bs

unfoldable pub sort_by_attempt : List GenerationAttempt → List GenerationAttempt
sort_by_attempt [] = []
sort_by_attempt (a ∷ as') = insert_by_attempt a (sort_by_attempt as')

-- pg.generationAttemptList.sql: the answers of a generation in the order of the attempts, at most 100.
unfoldable pub attempts_of : ℕ → List GenerationAttempt → List GenerationAttempt
attempts_of id rows = take 100 (sort_by_attempt (select (λ a. a.generation_id == id) rows))

-- `PgGenerationAttemptList.Exec`
unfoldable pub attempt_list : ℕ → Action Tables (List GenerationAttempt)
attempt_list id t = (ok (attempts_of id t.attempts), t)

pub record GenerationUsageTotals : Type 0 where
  pub input_tokens : ℤ
  pub output_tokens : ℤ
  pub oldest_at : Option ℕ

unfoldable pub in_window : ℕ → String → ℕ → ℕ → GenerationUsage → Bool
in_window owner purpose now window u =
    u.owner_id == owner && str_eq u.purpose purpose && ltb now (u.created_at + window)

abbrev pub oldest : Option ℕ → ℕ → Option ℕ
oldest none b = some b
oldest (some a) b = some (min a b)

-- The sums of the SELECT, which PostgreSQL casts to bigint: they are taken to be below 2^63.
unfoldable pub totals : List GenerationUsage → GenerationUsageTotals
totals [] = record { input_tokens = pos 0; output_tokens = pos 0; oldest_at = none }
totals (u ∷ us) =
    let rest = totals us in
    record {
      input_tokens = u.input_tokens +ℤ rest.input_tokens;
      output_tokens = u.output_tokens +ℤ rest.output_tokens;
      oldest_at = oldest rest.oldest_at u.created_at;
    }

pub record GenerationUsageSumRequest : Type 0 where
  pub owner_id : ℕ
  pub purpose : String
  pub windows : List ℕ

-- `PgGenerationUsageSum.Exec`: one total for each window, in the order given.
unfoldable pub usage_sum : GenerationUsageSumRequest → Action Tables (List GenerationUsageTotals)
usage_sum r t = (
  ok (
      map (λ window. totals (select (in_window r.owner_id r.purpose t.clock window) t.usage))
        r.windows),
  t,
)
