-- ===== src/Core/Submit/Identity.antt =====
-- The bytes behind a request key determine the request: no two requests are hashed from the same
-- bytes.
use service_genai.Prelude.{
  ℕ, zero, suc, ◌/◌, ◌%◌, ◌^◌, ◌<◌, ◌≡◌, ◌≢◌, refl, sym, ◌∙◌, ap, Bool, List, [], ◌∷◌, ◌++◌, arith,
  length, length-append, All, if◌then◌else◌,
}
use native.Mathlib.Nat.{pow-suc}
use service_genai.Errors.{Bytes}
use service_genai.Core.Submit.Request.{GenerationSubmitRequest}
use service_genai.Core.Submit.Key.{big_endian, frame, fields, async_mode, streamed_mode}

-- Two lists split at the same length have equal parts.
append-injective {ℓ} :
    {A : Type ℓ} (xs ys us vs : List A)
    → length xs ≡ length us
    → xs ++ ys ≡ us ++ vs
    → (xs ≡ us) × (ys ≡ vs)
append-injective [] ys [] vs n e = (refl, e)
append-injective [] ys (u ∷ us) vs n e = absurd (omega arith)
append-injective (x ∷ xs) ys [] vs n e = absurd (omega arith)
append-injective (x ∷ xs) ys (u ∷ us) vs n e =
    ground (arith, append-injective xs ys us vs (omega arith))

length-big_endian : (w n : ℕ) → length (big_endian w n) ≡ w
unfolding big_endian
length-big_endian zero n = refl
length-big_endian (suc w) n = omega (
  arith,
  length-append {0} (big_endian w (n / 256)) (n % 256 ∷ []),
  length-big_endian w (n / 256),
)

high_fits : (w n : ℕ) → n < 256 ^ suc w → n / 256 < 256 ^ w
high_fits w n h = let e = pow-suc 256 w in omega (arith, e)

-- A number that fits the width is read back from its bytes.
big_endian-injective :
    (w n m : ℕ) → n < 256 ^ w → m < 256 ^ w → big_endian w n ≡ big_endian w m → n ≡ m
unfolding big_endian
big_endian-injective zero n m a b e = omega arith
big_endian-injective (suc w) n m a b e =
    let split =
      append-injective (big_endian w (n / 256)) (n % 256 ∷ []) (big_endian w (m / 256))
        (m % 256 ∷ []) (length-big_endian w (n / 256) ∙ sym (length-big_endian w (m / 256))) e in
    let high =
      big_endian-injective w (n / 256) (m / 256) (high_fits w n a) (high_fits w m b) split.0 in
    let low : n % 256 ≡ m % 256 = cc split.1 in omega (arith, high, low)

-- A Go slice is shorter than 2^64 bytes.
abbrev pub IsShort : Bytes → Type 0
IsShort f = length f < 256 ^ 8

frame-nonempty : (f : Bytes) (fs : List Bytes) → length (frame (f ∷ fs)) ≢ 0
unfolding frame
frame-nonempty f fs e = omega (
  arith,
  length-append {0} (big_endian 8 (length f)) (f ++ frame fs),
  length-big_endian 8 (length f),
)

-- The length prefixes make the frame of a list of fields unambiguous.
frame-injective :
    (fs gs : List Bytes) → All IsShort fs → All IsShort gs → frame fs ≡ frame gs → fs ≡ gs
frame-injective [] [] a b e = refl
frame-injective [] (g ∷ gs) a b e =
    absurd (frame-nonempty g gs (ap length (sym e) ∙ unfold frame in refl))
frame-injective (f ∷ fs) [] a b e =
    absurd (frame-nonempty f fs (ap length e ∙ unfold frame in refl))
frame-injective (f ∷ fs) (g ∷ gs) a b e =
    let whole : big_endian 8 (length f) ++ (f ++ frame fs)
        ≡ big_endian 8 (length g) ++ (g ++ frame gs) =
      unfold frame in e in
    let prefix =
      append-injective (big_endian 8 (length f)) (f ++ frame fs) (big_endian 8 (length g))
        (g ++ frame gs) (length-big_endian 8 (length f) ∙ sym (length-big_endian 8 (length g)))
        whole in
    let same_length = big_endian-injective 8 (length f) (length g) a.0 b.0 prefix.0 in
    let field = append-injective f (frame fs) g (frame gs) same_length prefix.1 in
    let rest = frame-injective fs gs a.1 b.1 field.1 in cc (field.0, rest)

-- The parts of a request that a replay must share, with its canonical payload. A variant is a uint32.
pub record IsSized (r : GenerationSubmitRequest) (payload : Bytes) : Type 0 where
  pub owner : IsShort r.owner_bytes
  pub purpose : IsShort r.purpose_bytes
  pub provider : IsShort r.provider_bytes
  pub payload_fits : IsShort payload
  pub variant : r.variant < 256 ^ 4

mode_bytes :
    (a b : Bool)
    → (if a then streamed_mode else async_mode) ≡ (if b then streamed_mode else async_mode)
    → a ≡ b
mode_bytes a b e = ground arith

fields-IsShort :
    (r : GenerationSubmitRequest) (payload : Bytes)
    → IsSized r payload
    → All IsShort (fields r payload)
unfolding fields
fields-IsShort r payload s = ground (arith, length-big_endian 4 r.variant)

-- The bytes that a request key digests name the request: two requests with the same bytes, of fields
-- shorter than 2^64 bytes and of variants below 2^32, have the
-- same owner, purpose, provider, execution mode, canonical payload and variant.
pub key_bytes_identify :
    (r q : GenerationSubmitRequest) (payload other : Bytes)
    → IsSized r payload
    → IsSized q other
    → frame (fields r payload) ≡ frame (fields q other)
    → (r.owner_bytes ≡ q.owner_bytes)
      × (r.purpose_bytes ≡ q.purpose_bytes)
      × (r.provider_bytes ≡ q.provider_bytes)
      × (r.stream ≡ q.stream)
      × (payload ≡ other)
      × (r.variant ≡ q.variant)
unfolding fields
key_bytes_identify r q payload other s t e =
    let same =
      frame-injective (fields r payload) (fields q other) (fields-IsShort r payload s)
        (fields-IsShort q other t) e in
    (
      cc same,
      cc same,
      cc same,
      mode_bytes r.stream q.stream (cc same),
      cc same,
      big_endian-injective 4 r.variant q.variant s.variant t.variant (cc same),
    )
