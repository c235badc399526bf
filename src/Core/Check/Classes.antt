-- ===== src/Core/Check/Classes.antt =====
-- What a failed start of the OpenAI connector becomes: `Start` and `holdStream` of openai.go, and the
-- class that `failStart` reads off their error.
use service_genai.Prelude.{
  ◌≡◌, refl, String, Bool, true, false, ◌||◌, Option, none, some, List, [], ◌∷◌, arith,
  if◌then◌else◌, leb, ◌==◌, inl, inr, Bool-cases, Option-cases,
}
use service_genai.Errors.{Bytes, Err, wraps, prefixed}
use service_genai.Action.{Action, Res, ok, err, Res-cases}
use service_genai.Dao.Rows.{GenerationFailure}
use service_genai.Connectors.{AsyncStartRequest, Call}
use service_genai.Connectors.OpenAi.Response.{provider_call_of}
use service_genai.Connectors.OpenAi.Classify.{
  HttpError, classify_start, classify_start_status, with_provider_message,
}
use service_genai.Connectors.OpenAi.Operations.{
  Client, Http, answered, broken, async_envelope, hold_loop, hold_stream, started_call, start, held,
  posted, named_call, async_fields,
}
use service_genai.Core.Check.Start.{start_failure}

-- An error of a library wraps none of this program's errors.
abbrev pub Foreign : Err → Type 0
Foreign e = (e.sentinels ≡ []) × (e.rejection ≡ none)

abbrev pub Fails : {A : Type 0} → Res A → Type 0
Fails (ok a) = Unit
Fails (err e) = Foreign e

abbrev pub Breaks : {A : Type 0} → Http A × Bool → Type 0
Breaks (answered a, sent) = Unit
Breaks (broken h, sent) = Foreign h.cause

-- So of all the errors of the HTTP client and of the JSON package.
pub record IsForeign {S : Type 0} (client : Client S) : Type 0 where
  pub posts : (body : Bytes) (s : S) → Breaks (client.post body s).0
  pub streams : (body : Bytes) (s : S) → Breaks (client.post_stream body s).0
  pub decodes : (raw : Bytes) → Fails (client.decode raw)
  pub opens : (raw : Bytes) → Fails (client.decode_fields raw)
  pub encodes : (fields : List (String × Bytes)) → Fails (client.encode fields)

-- Whether the provider may have taken a request: it answered, with no error but a timeout's or its
-- own fault's, or it did not answer a request that fully left.
abbrev pub may_have_taken : {A : Type 0} → Http A × Bool → Bool
may_have_taken (answered a, sent) = true
may_have_taken (broken h, sent) = elim h.api [
  | none ↦ sent
  | some api ↦ api.status == 408 || leb 500 api.status
]

-- So for a start, whose request is posted once its body is written.
abbrev pub may_run : {S T : Type 0} → Client S → AsyncStartRequest T → S → Bool
may_run client request s = elim (async_envelope client request.payload request.stream) [
  | err e ↦ false
  | ok body ↦
      if request.stream
      then may_have_taken (client.post_stream body s).0
      else may_have_taken (client.post body s).0
]

abbrev pub is_unknown : GenerationFailure → Bool
is_unknown GenerationFailure.outcome_unknown = true
is_unknown _ = false

-- A start that succeeds was taken, and one that fails is told as unknown as it is.
abbrev pub Tells : {A T : Type 0} → Bool → Res A × T → Type 0
Tells taken (ok a, t) = taken ≡ true
Tells taken (err e, t) = is_unknown (start_failure e).1 ≡ taken

start_failure-classify_start :
    (A : Type 0) (h : HttpError) (sent : Bool)
    → Foreign h.cause
    → is_unknown (start_failure (classify_start h sent)).1 ≡ may_have_taken {A = A} (broken h, sent)
unfolding start_failure classify_start classify_start_status with_provider_message wraps
start_failure-classify_start A h sent f = ground arith

start_failure-Foreign : (e : Err) → Foreign e → is_unknown (start_failure e).1 ≡ false
unfolding start_failure wraps
start_failure-Foreign e f = ground arith

module _ {S : Type 0} (client : Client S) (foreign : IsForeign client) where
  async_envelope-Fails :
      (payload : Bytes) (stream : Bool) → Fails (async_envelope client payload stream)
  unfolding async_envelope
  async_envelope-Fails payload stream = elim (Res-cases (client.decode_fields payload)) [
    | inl (fields, e) ↦ ground (arith, foreign.encodes (async_fields stream fields))
    | inr (x, e) ↦ ground (arith, foreign.opens payload)
  ]

  started_call-Tells : {T : Type 0} (raw : Bytes) (t : T) → Tells true (started_call client raw, t)
  unfolding started_call start_failure wraps provider_call_of
  started_call-Tells raw t = ground (arith, foreign.decodes raw)

  module _ {C : Type 0} where
    posted-Tells :
        (c : C) (p : (Http Bytes × Bool) × S)
        → Breaks p.0
        → Tells (may_have_taken p.0) (posted client c p)
    posted-Tells c ((answered raw, sent), s) f = started_call-Tells raw (c, s)
    posted-Tells c ((broken h, sent), s) f = start_failure-classify_start Bytes h sent f

    -- A callback that never fails.
    abbrev pub Succeeds : Res (Unit {0}) × (C × S) → Type 0
    Succeeds (ok u, t) = Unit
    Succeeds (err e, t) = ⊥

    hold_loop-Tells :
        (accepted : Call → Action (C × S) (Unit {0}))
        → ((call : Call) (t : C × S) → Succeeds (accepted call t))
        → (events : List (Option Bytes)) (last : Option Call) (t : C × S)
        → Tells true (held client accepted (hold_loop client accepted events last t))
    unfolding hold_loop
    hold_loop-Tells accepted h [] none t = unfold start_failure in unfold wraps in refl
    hold_loop-Tells accepted h [] (some call) t = refl
    hold_loop-Tells accepted h (event ∷ events) last t =
        elim (Option-cases (named_call client event)) [
          | inl e ↦ ground (arith, hold_loop-Tells accepted h events last t)
          | inr (call, e) ↦ ground (
            arith,
            h call t,
            hold_loop-Tells accepted h events (some call) t,
            hold_loop-Tells accepted h events (some call) (accepted call t).1,
          )
        ]

    -- The answer of a post that is held.
    abbrev streamed :
        (Call → Action (C × S) (Unit {0}))
        → C
        → (Http (List (Option Bytes)) × Bool) × S
        → Res Call × (C × S)
    streamed accepted c p = elim p.0.0 [
      | broken h ↦ (err (classify_start h p.0.1), (c, p.1))
      | answered events ↦ held client accepted (hold_loop client accepted events none (c, p.1))
    ]

    streamed-Tells :
        (accepted : Call → Action (C × S) (Unit {0}))
        → ((call : Call) (t : C × S) → Succeeds (accepted call t))
        → (c : C) (p : (Http (List (Option Bytes)) × Bool) × S) → Breaks p.0
        → Tells (may_have_taken p.0) (streamed accepted c p)
    streamed-Tells accepted h c ((answered events, sent), s) f =
        hold_loop-Tells accepted h events none (c, s)
    streamed-Tells accepted h c ((broken x, sent), s) f =
        start_failure-classify_start (List (Option Bytes)) x sent f

    -- Of a client whose errors, like those of the JSON package, are foreign to this program, and with a
    -- callback that never fails: a start, streamed or not, that fails has the class that tells an unknown outcome exactly when
    -- the provider may have taken the request, which it answered with no error but a timeout's or its own
    -- fault's, or left unanswered though it fully left. One that succeeds was taken.
    pub start-Tells :
        (request : AsyncStartRequest (C × S)) (c : C) (s : S)
        → ((call : Call) (t : C × S) → Succeeds (request.accepted call t))
        → Tells (may_run client request s) (start client request (c, s))
    unfolding start hold_stream
    start-Tells request c s h =
        let fails = async_envelope-Fails request.payload request.stream in
        elim (Res-cases (async_envelope client request.payload request.stream)) [
          | inl (body, e) ↦ elim (Bool-cases request.stream) [
            | inl y ↦ ground (
              arith,
              streamed-Tells request.accepted h c (client.post_stream body s)
                  (foreign.streams body s),
            )
            | inr n ↦ ground (arith, posted-Tells c (client.post body s) (foreign.posts body s))
          ]
          | inr (x, e) ↦
              ground (arith, fails, start_failure-Foreign (prefixed "write async envelope: " x))
        ]
