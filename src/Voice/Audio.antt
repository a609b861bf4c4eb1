-- ===== src/Voice/Audio.antt =====
-- packages/voice/audio.ts: G.711 companding of samples. A sample is an integer, a byte a number below
-- 256; `s & mask` for one bit of the mask is written as a division, and `~x & 0xff` as `255 - x`.
pub mod Queue
pub mod Codec
pub mod Accuracy
use ai_receptionist.Base.{
  ℕ, zero, suc, ◌+◌, ◌-◌, ◌*◌, ◌/◌, ◌%◌, ◌^◌, min, List, [], ◌∷◌, ◌==◌, leb, ltb, if◌then◌else◌,
}

pub data ℤ : Type 0 where
  pos : ℕ → ℤ
  negsuc : ℕ → ℤ

-- The sign bit, 0x80 for a sample below 0.
unfoldable pub sign_of : ℤ → ℕ
sign_of (pos n) = 0
sign_of (negsuc n) = 128

-- The magnitude, after the clamp to 16 bits and to CLIP.
unfoldable pub clipped : ℤ → ℕ
clipped (pos n) = min (min n 32767) 32635
clipped (negsuc n) = min (min (suc n) 32768) 32635

-- The loop over the exponents, from `mask` for the exponent down.
unfoldable pub exponent_from : ℕ → ℕ → ℕ
exponent_from zero s = 0
exponent_from (suc e) s =
    let below = exponent_from e s in if s / 2 ^ (e + 8) % 2 == 0 then below else suc e

-- The byte of a sign bit and a magnitude with BIAS added.
unfoldable pub mulaw_byte : ℕ → ℕ → ℕ
mulaw_byte sign s =
    let exponent = exponent_from 7 s in 255 - (sign + exponent * 16 + s / 2 ^ (exponent + 3) % 16)

-- `linearToMulaw`
unfoldable pub linear_to_mulaw : ℤ → ℕ
linear_to_mulaw sample = mulaw_byte (sign_of sample) (clipped sample + 132)

-- `-n`
unfoldable pub negative : ℕ → ℤ
negative zero = pos 0
negative (suc n) = negsuc n

unfoldable pub magnitude : ℕ → ℕ
magnitude u = (u % 16 * 8 + 132) * 2 ^ (u / 16 % 8) - 132

-- `mulawToLinear`
unfoldable pub mulaw_to_linear : ℕ → ℤ
mulaw_to_linear byte =
    let u = 255 - byte % 256 in if leb 128 u then negative (magnitude u) else pos (magnitude u)

-- The 16 bits of a sample, two's complement.
unfoldable pub bits_of : ℤ → ℕ
bits_of (pos n) = n % 2 ^ 16
bits_of (negsuc n) = 2 ^ 16 - 1 - n % 2 ^ 16

-- `view.getInt16`, of the 16 bits.
unfoldable pub sample_of : ℕ → ℤ
sample_of bits = if ltb bits 32768 then pos bits else negsuc (2 ^ 16 - 1 - bits)

-- `mulawToPcm16`, little-endian.
unfoldable pub mulaw_to_pcm16 : List ℕ → List ℕ
mulaw_to_pcm16 [] = []
mulaw_to_pcm16 (b ∷ mulaw) =
    let bits = bits_of (mulaw_to_linear b) in bits % 256 ∷ bits / 256 ∷ mulaw_to_pcm16 mulaw

-- `pcm16ToMulaw`; a trailing odd byte is dropped.
unfoldable pub pcm16_to_mulaw : List ℕ → List ℕ
pcm16_to_mulaw [] = []
pcm16_to_mulaw (low ∷ []) = []
pcm16_to_mulaw (low ∷ high ∷ pcm) =
    linear_to_mulaw (sample_of (low + high * 256)) ∷ pcm16_to_mulaw pcm
