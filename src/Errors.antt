-- ===== src/Errors.antt =====
-- Go errors, as far as the program tests them. `errors.Is` looks for a sentinel among the wrapped
-- errors and `errors.As` for a typed error, so an error is its text, the sentinels that it wraps and
-- the typed errors that it holds. The sentinels are those of internal/core, internal/dao,
-- internal/lib/connectors and internal/config, with `sql.ErrNoRows` and `driver.ErrBadConn`.
use service_genai.Prelude.{
  ℕ, String, concat, Bool, false, ◌||◌, Option, none, some, List, [], ◌∷◌, ◌++◌, ◌==◌,
}

pub data Sentinel : Type 0 where
  generation_changed refused not_found not_cancellable usage_exists sweep_locked : Sentinel
  lock_not_held retryable start_ambiguous provider_unknown mode_unsupported : Sentinel
  stream_unavailable response_too_large not_configured usage_cap_reached : Sentinel
  invalid_request deadline_too_short not_streamed invalid_config no_rows : Sentinel
  lock_in_transaction bad_conn : Sentinel

abbrev tag : Sentinel → ℕ
tag generation_changed = 0
tag refused = 1
tag not_found = 2
tag not_cancellable = 3
tag usage_exists = 4
tag sweep_locked = 5
tag lock_not_held = 6
tag retryable = 7
tag start_ambiguous = 8
tag provider_unknown = 9
tag mode_unsupported = 10
tag stream_unavailable = 11
tag response_too_large = 12
tag not_configured = 13
tag usage_cap_reached = 14
tag invalid_request = 15
tag deadline_too_short = 16
tag not_streamed = 17
tag invalid_config = 18
tag no_rows = 19
tag lock_in_transaction = 20
tag bad_conn = 21

-- A byte string: `[]byte` and `json.RawMessage`. A nil message is `none` where the code tests it.
abbrev pub Bytes : Type 0
Bytes = List ℕ

-- The limit that a `core.UsageCapError` names: a concurrency with the generations already in flight,
-- or the tokens over a window, with its duration in nanoseconds.
pub data Limit : Type 0 where
  concurrency : ℕ → ℕ → Limit
  input_tokens : ℕ → Limit
  output_tokens : ℕ → Limit

-- `core.UsageCapError`: the purpose of its scope, the limit, and how long until the window frees
-- usage. Its texts are made of these.
pub record UsageCapError : Type 0 where
  pub purpose : String
  pub limit : Limit
  pub retry_after : ℕ

-- `rejection` is the response of a `connectors.RejectionError` in the tree, which may be nil.
pub record Err : Type 0 where
  pub text : String
  pub sentinels : List Sentinel
  pub rejection : Option (Option Bytes)
  pub refusal : Option UsageCapError

-- `errors.New`
abbrev pub sentinel : String → Sentinel → Err
sentinel t s = record { text = t; sentinels = s ∷ []; rejection = none; refusal = none }

-- An error that nothing tests.
abbrev pub plain : String → Err
plain t = record { text = t; sentinels = []; rejection = none; refusal = none }

-- `fmt.Errorf("prefix%w", err)`
abbrev pub prefixed : String → Err → Err
prefixed p e = record e { text = concat p e.text }

-- `fmt.Errorf("%w" + sep + "%s", err, text)`
abbrev pub concat_text : Err → String → String → Err
concat_text e sep t = record e { text = concat e.text (concat sep t) }

abbrev first {ℓ} : {A : Type ℓ} → Option A → Option A → Option A
first none b = b
first (some a) b = some a

-- `errors.Join(left, right)`, and `fmt.Errorf("%w: %w", left, right)` with `sep`.
abbrev pub join : String → Err → Err → Err
join sep l r = record {
  text = concat l.text (concat sep r.text);
  sentinels = l.sentinels ++ r.sentinels;
  rejection = first l.rejection r.rejection;
  refusal = first l.refusal r.refusal;
}

-- `errors.Join(left, right)`, where `right` may be nil.
abbrev pub join_some : Err → Option Err → Err
join_some l none = l
join_some l (some r) = join "\n" l r

pub is_in : Sentinel → List Sentinel → Bool
is_in s [] = false
is_in s (t ∷ ts) = tag s == tag t || is_in s ts

-- `errors.Is(err, sentinel)`
unfoldable pub wraps : Sentinel → Err → Bool
unfolding is_in
wraps s e = is_in s e.sentinels
