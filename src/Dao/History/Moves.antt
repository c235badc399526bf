-- ===== src/Dao/History/Moves.antt =====
-- What the UPDATEs of `generations` do to one row: the columns that they leave, and the status.
use service_genai.Prelude.{
  ℕ, ◌+◌, ◌≡◌, refl, String, Bool, true, false, Option-cases, inl, inr, Option, none, some, arith,
}
use service_genai.Errors.{Bytes}
use service_genai.Dao.Rows.{Generation, GenerationStatus, checks, is_live}
use service_genai.Dao.Lifecycle.{
  GenerationSettleRequest, GenerationRecordProviderCallRequest, GenerationRequestCancelRequest,
  settle_match, settle_set, record_match, record_set, cancel_match, cancel_set,
}
use service_genai.Dao.Consistency.{IsChecked, settle-IsTame, cancel-IsTame}

-- The moves of a status: a call's start, a settle, and no other.
infix 40 ◌⟶◌
pub data ◌⟶◌ : GenerationStatus → GenerationStatus → Type 0 where
  stays : {s : GenerationStatus} → s ⟶ s
  runs : GenerationStatus.pending ⟶ GenerationStatus.running
  settles : {s t : GenerationStatus} → is_live s ≡ true → is_live t ≡ false → s ⟶ t

⟶_trans : {s t u : GenerationStatus} → s ⟶ t → t ⟶ u → s ⟶ u
⟶_trans p stays = p
⟶_trans stays runs = runs
⟶_trans (settles l e) runs = absurd (cc e)
⟶_trans stays (settles l e) = settles l e
⟶_trans runs (settles l e) = settles refl e
⟶_trans (settles l e) (settles m f) = absurd (cc (e, m))

-- A column that is written once.
abbrev pub Keeps : {A : Type 0} → Option A → Option A → Type 0
Keeps none p = Unit
Keeps (some a) p = p ≡ some a

Keeps-refl : {A : Type 0} (o : Option A) → Keeps o o
Keeps-refl none = tt
Keeps-refl (some a) = refl

Keeps-trans : {A : Type 0} (o p q : Option A) → Keeps o p → Keeps p q → Keeps o q
Keeps-trans none p q k l = tt
Keeps-trans (some a) none q k l = cc k
Keeps-trans (some a) (some b) q k l = cc (k, l)

-- The columns that no statement changes.
pub record Fixed : Type 0 where
  pub id : ℕ
  pub owner_id : ℕ
  pub purpose : String
  pub provider : String
  pub key : Bytes
  pub traceparent : Option String
  pub streamed : Bool
  pub created_at : ℕ
  pub start_requested_at : Option ℕ

abbrev pub fixed_of : Generation → Fixed
fixed_of g = record {
  id = g.id;
  owner_id = g.owner_id;
  purpose = g.purpose;
  provider = g.provider;
  key = g.request_key;
  traceparent = g.traceparent;
  streamed = g.streamed;
  created_at = g.created_at;
  start_requested_at = g.start_requested_at;
}

-- A row and what it may be later.
pub record IsLater (g h : Generation) : Type 0 where
  pub fixed : fixed_of h ≡ fixed_of g
  pub status : g.status ⟶ h.status
  pub provider_call_id : Keeps g.provider_call_id h.provider_call_id
  pub cancel_requested_at : Keeps g.cancel_requested_at h.cancel_requested_at

pub IsLater-refl : (g : Generation) → IsLater g g
IsLater-refl g = record {
  fixed = refl;
  status = stays;
  provider_call_id = Keeps-refl g.provider_call_id;
  cancel_requested_at = Keeps-refl g.cancel_requested_at;
}

pub IsLater-trans : {g h k : Generation} → IsLater g h → IsLater h k → IsLater g k
IsLater-trans {g} {h} {k} p q = record {
  fixed = cc (p.fixed, q.fixed);
  status = ⟶_trans p.status q.status;
  provider_call_id =
      Keeps-trans g.provider_call_id h.provider_call_id k.provider_call_id p.provider_call_id
        q.provider_call_id;
  cancel_requested_at =
      Keeps-trans g.cancel_requested_at h.cancel_requested_at k.cancel_requested_at
        p.cancel_requested_at q.cancel_requested_at;
}

-- What an UPDATE makes of a checked row that it matches, when the CHECKs let it.
abbrev pub IsMove : (Generation → Bool) → (Generation → Generation) → Type 0
IsMove match change =
    (g : Generation) → IsChecked g → match g ≡ true → IsChecked (change g) → IsLater g (change g)

settled_lem :
    (g : Generation) (at until : ℕ)
    → IsChecked g
    → g.settled_at ≡ some at
    → g.expires_at ≡ some until
    → is_live g.status ≡ false
unfolding checks
settled_lem g at until c e f = ground arith

pub settle-IsMove :
    (r : GenerationSettleRequest) (at : ℕ) → IsMove (settle_match r) (settle_set r at)
unfolding settle_set
settle-IsMove r at g c m d = record {
  fixed = refl;
  status =
      settles ((settle-IsTame r at).live_only g m)
        (settled_lem (settle_set r at g) at (at + r.retention) d refl refl);
  provider_call_id = Keeps-refl g.provider_call_id;
  cancel_requested_at = Keeps-refl g.cancel_requested_at;
}

unsent_pending_lem :
    (g : Generation) → IsChecked g → g.status ≡ GenerationStatus.pending → g.provider_call_id ≡ none
unfolding checks
unsent_pending_lem g c e = ground arith

record_runs_lem :
    (r : GenerationRecordProviderCallRequest) (g : Generation)
    → record_match r g ≡ true
    → g.status ≡ GenerationStatus.pending
unfolding record_match
record_runs_lem r g m = ground arith

pub record-IsMove :
    (r : GenerationRecordProviderCallRequest) (at : ℕ) → IsMove (record_match r) (record_set r at)
unfolding record_set
record-IsMove r at g c m d =
    let pending = record_runs_lem r g m in
    record {
      fixed = refl;
      status = rw pending runs;
      provider_call_id = rw (unsent_pending_lem g c pending) tt;
      cancel_requested_at = Keeps-refl g.cancel_requested_at;
    }

cancelled_status_lem :
    (r : GenerationRequestCancelRequest) (at : ℕ) (g : Generation)
    → is_live g.status ≡ true
    → g.status ⟶ (cancel_set r at g).status
unfolding cancel_set
cancelled_status_lem r at g live = elim (Option-cases g.start_requested_at) [
  | inl e ↦ rw e (settles live refl)
  | inr (x, e) ↦ rw e stays
]

cancelled_at_lem :
    (r : GenerationRequestCancelRequest) (at : ℕ) (g : Generation)
    → Keeps g.cancel_requested_at (cancel_set r at g).cancel_requested_at
unfolding cancel_set
cancelled_at_lem r at g = elim (Option-cases g.cancel_requested_at) [
  | inl e ↦ rw e tt
  | inr (x, e) ↦ rw e refl
]

pub cancel-IsMove :
    (r : GenerationRequestCancelRequest) (at : ℕ) → IsMove (cancel_match r) (cancel_set r at)
unfolding cancel_set
cancel-IsMove r at g c m d = record {
  fixed = refl;
  status = cancelled_status_lem r at g ((cancel-IsTame r at).live_only g m);
  provider_call_id = Keeps-refl g.provider_call_id;
  cancel_requested_at = cancelled_at_lem r at g;
}
