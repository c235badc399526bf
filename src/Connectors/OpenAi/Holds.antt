-- ===== src/Connectors/OpenAi/Holds.antt =====
-- What a start of the OpenAI connector tells its caller, and what it writes over a payload.
use service_genai.Prelude.{
  String, ◌≡◌, refl, Bool, true, false, Option, none, some, List, [], ◌∷◌, arith, if◌then◌else◌,
  str_eq, eq_iff, Option-cases, Bool-cases, inl, inr, not, ◌↔◌,
}
use service_genai.Errors.{Bytes}
use service_genai.Action.{Action, Res, ok, err}
use service_genai.Connectors.{Call, terminal}
use service_genai.Connectors.OpenAi.Response.{OpenAiResponse, call_of, class_of, state_of}
use service_genai.Connectors.OpenAi.Operations.{
  Client, named_call, hold_loop, is_queued, json_bool, set_field, async_fields,
}

-- The first call that an event of the stream names.
abbrev pub first_named : {S : Type 0} → Client S → List (Option Bytes) → Option Call
first_named client [] = none
first_named client (event ∷ events) = elim (named_call client event) [
  | none ↦ first_named client events
  | some call ↦ some call
]

-- A hold that ends with a call named, on this state.
abbrev EndsNamed : {T : Type 0} → T → Res (Option Call) × T → Type 0
EndsNamed t (ok (some last), t') = t' ≡ t
EndsNamed t (ok none, t') = ⊥
EndsNamed t (err e, t') = ⊥

-- A hold that has made the announcement that gave this answer: its error ends the hold.
abbrev Follows : {T : Type 0} → Res (Unit {0}) × T → Res (Option Call) × T → Type 0
Follows (ok u, t) result = EndsNamed t result
Follows (err e, t) result = result ≡ (err e, t)

-- What a hold has done: nothing where no event names a call, and else the one announcement of the
-- first call named.
abbrev pub Announces :
    {T : Type 0} → (Call → Action T (Unit {0})) → Option Call → T → Res (Option Call) × T → Type 0
Announces accepted none t result = result ≡ (ok none, t)
Announces accepted (some call) t result = Follows (accepted call t) result

module _ {S C : Type 0} (client : Client S) (accepted : Call → Action (C × S) (Unit {0})) where
  abbrev holds_on : List (Option Bytes) → Call → C × S → Res (Option Call) × (C × S)
  holds_on events call t =
      if not (is_queued call.state)
      then (ok (some call), t)
      else hold_loop client accepted events (some call) t

  abbrev announced_result :
      List (Option Bytes) → Call → Res (Unit {0}) × (C × S) → Res (Option Call) × (C × S)
  announced_result events call (err e, t) = (err e, t)
  announced_result events call (ok u, t) = holds_on events call t

  hold_loop-skip :
      (event : Option Bytes) (events : List (Option Bytes)) (last : Option Call) (t : C × S)
      → named_call client event ≡ none
      → hold_loop client accepted (event ∷ events) last t ≡ hold_loop client accepted events last t
  unfolding hold_loop
  hold_loop-skip event events last t e = ground arith

  hold_loop-later :
      (event : Option Bytes) (events : List (Option Bytes)) (call earlier : Call) (t : C × S)
      → named_call client event ≡ some call
      → hold_loop client accepted (event ∷ events) (some earlier) t ≡ holds_on events call t
  unfolding hold_loop
  hold_loop-later event events call earlier t e = ground arith

  hold_loop-first :
      (event : Option Bytes) (events : List (Option Bytes)) (call : Call) (t : C × S)
      → named_call client event ≡ some call
      → hold_loop client accepted (event ∷ events) none t
        ≡ announced_result events call (accepted call t)
  unfolding hold_loop
  hold_loop-first event events call t e = ground arith

  first_named-skip :
      (event : Option Bytes) (events : List (Option Bytes))
      → named_call client event ≡ none
      → first_named client (event ∷ events) ≡ first_named client events
  first_named-skip event events e = ground arith

  first_named-some :
      (event : Option Bytes) (events : List (Option Bytes)) (call : Call)
      → named_call client event ≡ some call
      → first_named client (event ∷ events) ≡ some call
  first_named-some event events call e = ground arith

  EndsNamed-holds_on :
      (events : List (Option Bytes)) (call : Call) (t : C × S)
      → EndsNamed t (hold_loop client accepted events (some call) t)
      → EndsNamed t (holds_on events call t)
  EndsNamed-holds_on events call t h = elim (Bool-cases (is_queued call.state)) [
    | inl e ↦ rw e h
    | inr e ↦ rw e refl
  ]

  -- Once a call is named, the rest of the stream announces nothing.
  hold_loop-named :
      (events : List (Option Bytes)) (call : Call) (t : C × S)
      → EndsNamed t (hold_loop client accepted events (some call) t)
  hold_loop-named [] call t = unfold hold_loop in refl
  hold_loop-named (event ∷ events) call t = elim (Option-cases (named_call client event)) [
    | inl e ↦ rw (hold_loop-skip event events (some call) t e) (hold_loop-named events call t)
    | inr (following, e) ↦
        rw (hold_loop-later event events following call t e)
          (EndsNamed-holds_on events following t (hold_loop-named events following t))
  ]

  Follows-announced :
      (events : List (Option Bytes)) (call : Call) (r : Res (Unit {0}) × (C × S))
      → Follows r (announced_result events call r)
  Follows-announced events call (err e, t) = refl
  Follows-announced events call (ok u, t) =
      EndsNamed-holds_on events call t (hold_loop-named events call t)

  -- However long the stream, the callback runs at most once: for the first call that an event names,
  -- on the state at the beginning of the hold. An error of the callback ends the hold with it, and
  -- else the hold ends with a call named, on the state that the callback left.
  pub hold-Announces_once :
      (events : List (Option Bytes)) (t : C × S)
      → Announces accepted (first_named client events) t (hold_loop client accepted events none t)
  hold-Announces_once [] t = unfold hold_loop in refl
  hold-Announces_once (event ∷ events) t = elim (Option-cases (named_call client event)) [
    | inl e ↦
        rw (hold_loop-skip event events none t e, first_named-skip event events e)
          (hold-Announces_once events t)
    | inr (call, e) ↦
        rw (hold_loop-first event events call t e, first_named-some event events call e)
          (Follows-announced events call (accepted call t))
  ]

-- The fields that the Async mode owns are the connector's, whatever the payload holds, and every
-- other field is the caller's.
abbrev pub field : String → List (String × Bytes) → Option Bytes
field name [] = none
field name ((n, v) ∷ fields) = if str_eq n name then some v else field name fields

field-set_field :
    (name other : String) (value : Bytes) (fields : List (String × Bytes))
    → field other (set_field name value fields)
      ≡ (if str_eq name other then some value else field other fields)
unfolding set_field
field-set_field name other value [] = refl
field-set_field name other value ((n, v) ∷ fields) = ground (
  arith,
  eq_iff n name,
  eq_iff n other,
  eq_iff name other,
  field-set_field name other value fields,
)

-- Over any payload, a start runs in the background and streams exactly when asked; every other member
-- of the payload reaches the provider as it was sent.
async_fields_lem :
    (stream : Bool) (fields : List (String × Bytes))
    → (field "background" (async_fields stream fields) ≡ some (json_bool true))
      × (field "stream" (async_fields stream fields) ≡ some (json_bool stream))
      × ((name : String)
          → str_eq "background" name ≡ false
          → str_eq "stream" name ≡ false
          → field name (async_fields stream fields) ≡ field name fields)
unfolding async_fields
async_fields_lem stream fields = (
  rw
      (field-set_field "stream" "background" (json_bool stream)
        (set_field "background" (json_bool true) fields))
      (field-set_field "background" "background" (json_bool true) fields),
  field-set_field "stream" "stream" (json_bool stream)
      (set_field "background" (json_bool true) fields),
  λ name b st.
      rw
        (
          field-set_field "stream" name (json_bool stream)
              (set_field "background" (json_bool true) fields),
          st,
        )
        (rw (field-set_field "background" name (json_bool true) fields, b)),
)

class_of-filled : (effort : String) → str_eq (class_of effort) "" ≡ false
unfolding class_of
class_of-filled effort = elim (Bool-cases (str_eq effort "")) [ inl e ↦ rw e refl | inr e ↦ rw e e ]

-- A call that is still to be polled carries nothing to settle; a finished one carries the response as
-- sent, with its class, and its usage exactly when the provider reports it.
call_of_lem :
    (raw : Bytes) (r : OpenAiResponse)
    → let call = call_of raw r in
      (call.state ≡ state_of r.status)
      × ((terminal call.state ≡ false) → (call.response ≡ none) × (call.usage ≡ none))
      × ((terminal call.state ≡ true)
          → (call.response ≡ some raw)
            × (str_eq call.class "" ≡ false)
            × ((call.usage ≡ none) ↔ (r.total_tokens ≡ none)))
unfolding call_of terminal
call_of_lem raw r = ground (arith, class_of-filled r.effort)
