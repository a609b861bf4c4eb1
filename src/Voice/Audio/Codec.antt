-- ===== src/Voice/Audio/Codec.antt =====
-- Encoding a decoded byte.
use ai_receptionist.Base.{
  Bool-cases, inl, inr, ℕ, zero, suc, ◌+◌, ◌*◌, ◌/◌, ◌%◌, ◌<◌, ◌≡◌, refl, ap, ◌∙◌, subst, true,
  List, [], ◌∷◌, map, arith, Bool, ◌==◌, ◌&&◌, if◌then◌else◌, All,
}
use ai_receptionist.Voice.Audio.{
  linear_to_mulaw, mulaw_to_linear, mulaw_to_pcm16, pcm16_to_mulaw, sample_of, bits_of, sign_of,
  clipped, exponent_from, mulaw_byte, negative, magnitude,
}

-- What a byte is encoded to again: itself, but the negative zero 0x7f becomes 0xff.
abbrev pub restored : ℕ → ℕ
restored b = if b == 127 then 255 else b

byte_round_trips : ℕ → Bool
byte_round_trips b =
    let bits = bits_of (mulaw_to_linear b) in
    (linear_to_mulaw (sample_of (bits % 256 + bits / 256 * 256)) == restored b)

-- The test at every number below `n`.
all_below : (ℕ → Bool) → ℕ → Bool
all_below p zero = true
all_below p (suc n) = p n && all_below p n

all_below-lt : (p : ℕ → Bool) (n k : ℕ) → all_below p n ≡ true → k < n → p k ≡ true
unfolding all_below
all_below-lt p zero k h lt = absurd (omega arith)
all_below-lt p (suc n) k h lt = elim (Bool-cases (k == n)) [
  | inl here ↦ let e : n ≡ k = ground arith in subst (λ i. p i ≡ true) e (ground (arith, h))
  | inr below ↦ all_below-lt p n k (ground arith) (ground arith)
]

every_byte_round_trips : all_below byte_round_trips 256 ≡ true
unfolding all_below byte_round_trips linear_to_mulaw mulaw_to_linear sample_of bits_of sign_of
    clipped exponent_from mulaw_byte negative magnitude
every_byte_round_trips = refl

byte_round_trip :
    (b : ℕ)
    → b < 256
    → linear_to_mulaw
        (sample_of (bits_of (mulaw_to_linear b) % 256 + bits_of (mulaw_to_linear b) / 256 * 256))
      ≡ restored b
unfolding byte_round_trips
byte_round_trip b lt = ground (arith, all_below-lt byte_round_trips 256 b every_byte_round_trips lt)

-- Decoding mu-law audio to 16-bit samples and encoding it again gives back every byte but the
-- negative zero 0x7f, which becomes the zero 0xff.
pub pcm16_round_trip :
    (mulaw : List ℕ)
    → All (λ b. b < 256) mulaw
    → pcm16_to_mulaw (mulaw_to_pcm16 mulaw) ≡ map restored mulaw
unfolding pcm16_to_mulaw mulaw_to_pcm16
pcm16_round_trip [] h = refl
pcm16_round_trip (b ∷ mulaw) (lt, h) =
    ap (λ x. x ∷ pcm16_to_mulaw (mulaw_to_pcm16 mulaw)) (byte_round_trip b lt)
    ∙ ap (λ xs. restored b ∷ xs) (pcm16_round_trip mulaw h)
