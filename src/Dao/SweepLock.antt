-- ===== src/Dao/SweepLock.antt =====
-- The sweep's leader role: pg.generationSweepLock, pg.generationSweepUnlock and `discard` of
-- common.go. A session of PostgreSQL is a number.
pub mod Roles
pub mod Leader
mod Tests
use service_genai.Prelude.{ℕ, Bool, true, false, Option, none, some, if◌then◌else◌}
use service_genai.Errors.{
  Err, sentinel, prefixed, join_some, wraps, sweep_locked, lock_not_held, lock_in_transaction,
  bad_conn,
}
use service_genai.Action.{Action, Res, ok, err}

-- What the context carries: `bun.IDB` is a pool or a transaction.
pub data Handle : Type 0 where
  pool transaction : Handle

-- The pool of a replica, and the statements of a session, over a state `S`. `query_lock` and
-- `query_unlock` are the two queries with the answer that they scan, and `raw_bad` is `conn.Raw` with a function that
-- returns `driver.ErrBadConn`.
pub record Sessions (S : Type 0) : Type 0 where
  pub context : Action S Handle
  pub conn : Action S ℕ
  pub query_lock : ℕ → Action S Bool
  pub query_unlock : ℕ → Action S Bool
  pub close : ℕ → S → Option Err × S
  pub raw_bad : ℕ → S → Option Err × S

-- `GenerationSweepLock`: no session holds nothing.
pub record GenerationSweepLock : Type 0 where
  pub conn : Option ℕ

abbrev sweep_lock_error : Err
sweep_lock_error = sentinel "another sweep holds the leader role" sweep_locked

abbrev lock_not_held_error : Err
lock_not_held_error = sentinel "the session held no sweep leader role" lock_not_held

abbrev in_transaction_error : Err
in_transaction_error =
    sentinel "the sweep's leader role needs a connection pool, not a transaction"
      lock_in_transaction

module _ {S : Type 0} (d : Sessions S) where
  abbrev discarded : Option Err × S → Option Err × S
  discarded (none, s) = (none, s)
  discarded (some e, s) = (if wraps bad_conn e then none else some e, s)

  -- `discard`
  unfoldable pub discard : ℕ → S → Option Err × S
  discard c s = discarded (d.raw_bad c s)

  abbrev lock_refusal : Err → Option Err × S → Res GenerationSweepLock × S
  lock_refusal e (closing, s) = (err (join_some e closing), s)

  -- What follows the query of the lock.
  unfoldable pub judged : ℕ → Res Bool × S → Res GenerationSweepLock × S
  judged c (err e, s) = lock_refusal (prefixed "execute query: " e) (discard c s)
  judged c (ok true, s) = (ok (record { conn = some c }), s)
  judged c (ok false, s) = lock_refusal sweep_lock_error (d.close c s)

  -- What follows `pool.Conn`.
  unfoldable pub lock_on : Res ℕ × S → Res GenerationSweepLock × S
  lock_on (err e, s) = (err (prefixed "take a connection: " e), s)
  lock_on (ok c, s) = judged c (d.query_lock c s)

  unfoldable pub lock_of : Res Handle × S → Res GenerationSweepLock × S
  lock_of (err e, s) = (err (prefixed "get postgres context: " e), s)
  lock_of (ok Handle.transaction, s) = (err in_transaction_error, s)
  lock_of (ok Handle.pool, s) = lock_on (d.conn s)

  -- `PgGenerationSweepLock.Exec`
  unfoldable pub lock : Action S GenerationSweepLock
  lock s = lock_of (d.context s)

  abbrev failed : Err → Option Err × S → Option Err × S
  failed e (closing, s) = (some (join_some e closing), s)

  -- What follows the query of the unlock.
  unfoldable pub released : ℕ → Res Bool × S → Option Err × S
  released c (err e, s) = failed (prefixed "execute query: " e) (discard c s)
  released c (ok false, s) = failed lock_not_held_error (discard c s)
  released c (ok true, s) = d.close c s

  -- `PgGenerationSweepUnlock.Exec`
  unfoldable pub unlock : GenerationSweepLock → S → Option Err × S
  unlock role s = elim role.conn [ none ↦ (none, s) | some c ↦ released c (d.query_unlock c s) ]
