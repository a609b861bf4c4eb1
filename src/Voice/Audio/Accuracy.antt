-- ===== src/Voice/Audio/Accuracy.antt =====
-- How far a sample is from what it is heard as after encoding and decoding.
use native.Mathlib.Nat.{div-eq_of_lt, pow-succ', one-le-pow}
use ai_receptionist.Base.{
  ltb→lt, ℕ, zero, suc, ◌+◌, ◌-◌, ◌*◌, ◌/◌, ◌%◌, ◌^◌, ◌<◌, ◌≤◌, ◌≡◌, ◌⊎◌, inl, inr, refl, sym, ap,
  ◌∙◌, subst, true, false, arith, Bool, Bool-cases, ◌==◌, if◌then◌else◌, leb, ltb, min,
}
use ai_receptionist.Voice.Audio.{
  pos, linear_to_mulaw, mulaw_to_linear, sign_of, clipped, exponent_from, mulaw_byte, negative,
  magnitude,
}

low_half : (p s : ℕ) → s < 2 * p → (s / p % 2 == 0) ≡ true → s < p
low_half p s lt h = grind arith

high_half : (p s : ℕ) → 0 < p → s < 2 * p → (s / p % 2 == 0) ≡ false → p ≤ s
high_half p s nonzero lt h = elim (Bool-cases (ltb s p)) [
  | inl below ↦
      let none_left : s / p ≡ 0 = div-eq_of_lt (ltb→lt s p below) in
      let even : (0 % 2 == 0) ≡ false = subst (λ q. (q % 2 == 0) ≡ false) none_left h in
      absurd (ground arith)
  | inr above ↦ ground arith
]

double : (e : ℕ) → 2 ^ (suc e + 8) ≡ 2 * 2 ^ (e + 8)
double e =
    let same : suc e + 8 ≡ suc (e + 8) = omega arith in ap (λ k. 2 ^ k) same ∙ pow-succ' 2 (e + 8)

positive : (e : ℕ) → 0 < 2 ^ e
positive e = omega (arith, one-le-pow e 2 (omega arith))

-- The loop finds the highest set bit of the magnitude, which lies between 2 ^ 7 and 2 ^ 15.
exponent_from-bounds :
    (e s : ℕ)
    → 2 ^ 7 ≤ s
    → s < 2 ^ (e + 8)
    → (2 ^ (exponent_from e s + 7) ≤ s)
      × (s < 2 ^ (exponent_from e s + 8))
      × (exponent_from e s ≤ e)
unfolding exponent_from
exponent_from-bounds zero s lo hi = (lo, hi, omega arith)
exponent_from-bounds (suc e) s lo hi =
    by_bit (s / 2 ^ (e + 8) % 2 == 0) refl (exponent_from-bounds e s lo)
  where
    by_bit :
        (b : Bool)
        → (s / 2 ^ (e + 8) % 2 == 0) ≡ b
        → (s < 2 ^ (e + 8)
            → (2 ^ (exponent_from e s + 7) ≤ s)
              × (s < 2 ^ (exponent_from e s + 8))
              × (exponent_from e s ≤ e))
        → (2 ^ ((if b then exponent_from e s else suc e) + 7) ≤ s)
          × (s < 2 ^ ((if b then exponent_from e s else suc e) + 8))
          × ((if b then exponent_from e s else suc e) ≤ suc e)
    by_bit true h later =
        let (lo2, hi2, le) = later (low_half (2 ^ (e + 8)) s (omega (arith, hi, double e)) h) in
        (lo2, hi2, omega arith)
    by_bit false h later =
        let same : suc e + 7 ≡ e + 8 = omega arith in
        (
          subst (λ k. 2 ^ k ≤ s) (sym same)
              (high_half (2 ^ (e + 8)) s (positive (e + 8)) (omega (arith, hi, double e)) h),
          hi,
          omega arith,
        )

-- The magnitude that the mantissa and the exponent stand for, with BIAS still added.
abbrev heard : ℕ → ℕ → ℕ
heard e s = (s / 2 ^ (e + 3) % 16 * 8 + 132) * 2 ^ e

heard-near :
    (e s : ℕ)
    → e ≤ 7
    → 2 ^ (e + 7) ≤ s
    → s < 2 ^ (e + 8)
    → (132 ≤ heard e s) × (32 * heard e s ≤ 33 * s) × (31 * s ≤ 32 * heard e s)
heard-near zero s le lo hi = (omega arith, omega arith, omega arith)
heard-near (suc zero) s le lo hi = (omega arith, omega arith, omega arith)
heard-near (suc (suc zero)) s le lo hi = (omega arith, omega arith, omega arith)
heard-near (suc (suc (suc zero))) s le lo hi = (omega arith, omega arith, omega arith)
heard-near (suc (suc (suc (suc zero)))) s le lo hi = (omega arith, omega arith, omega arith)
heard-near (suc (suc (suc (suc (suc zero))))) s le lo hi = (omega arith, omega arith, omega arith)
heard-near (suc (suc (suc (suc (suc (suc zero)))))) s le lo hi =
    (omega arith, omega arith, omega arith)
heard-near (suc (suc (suc (suc (suc (suc (suc zero))))))) s le lo hi =
    (omega arith, omega arith, omega arith)
heard-near (suc (suc (suc (suc (suc (suc (suc (suc e)))))))) s le lo hi = absurd (omega arith)

-- The fields of a byte are read back.
magnitude-byte :
    (sign e m : ℕ)
    → (sign ≡ 0) ⊎ (sign ≡ 128)
    → e ≤ 7
    → m < 16
    → (magnitude (255 - (255 - (sign + e * 16 + m)) % 256) ≡ (m * 8 + 132) * 2 ^ e - 132)
      × (leb 128 (255 - (255 - (sign + e * 16 + m)) % 256) ≡ (sign == 128))
unfolding magnitude
magnitude-byte sign e m is le lt =
    let u = 255 - (255 - (sign + e * 16 + m)) % 256 in
    let low : u % 16 ≡ m = omega arith in
    let high : u / 16 % 8 ≡ e = omega arith in
    (
      ap (λ x. (x * 8 + 132) * 2 ^ (u / 16 % 8) - 132) low
          ∙ ap (λ x. (m * 8 + 132) * 2 ^ x - 132) high,
      ground arith,
    )

-- A sample of magnitude `n` with a sign bit, encoded and decoded.
heard_byte :
    (sign n : ℕ)
    → (sign ≡ 0) ⊎ (sign ≡ 128)
    → n ≤ 32635
    → (m : ℕ) × (mulaw_to_linear (mulaw_byte sign (n + 132))
        ≡ (if sign == 128 then negative m else pos m))
      × (32 * m ≤ 32 * n + n + 132)
      × (32 * n ≤ 32 * m + n + 132)
unfolding mulaw_to_linear mulaw_byte
heard_byte sign n is le =
    let e = exponent_from 7 (n + 132) in
    let k = (n + 132) / 2 ^ (e + 3) % 16 in
    let u = 255 - (255 - (sign + e * 16 + k)) % 256 in
    let (lo, hi, top) = exponent_from-bounds 7 (n + 132) (omega arith) (omega arith) in
    let (bias, above, below) = heard-near e (n + 132) top lo hi in
    let (loud, side) = magnitude-byte sign e k is top (omega arith) in
    (
      heard e (n + 132) - 132,
      ap (λ b. if b then negative (magnitude u) else pos (magnitude u)) side
          ∙ ap (λ x. if sign == 128 then negative x else pos x) loud,
      omega arith,
      omega arith,
    )

zero_heard : mulaw_to_linear (linear_to_mulaw (pos 0)) ≡ pos 0
unfolding linear_to_mulaw mulaw_to_linear mulaw_byte exponent_from sign_of clipped magnitude
    negative
zero_heard = refl

-- A sample of at most CLIP in magnitude keeps its sign through the encoding to mu-law and back, and
-- the error of its magnitude `n` is at most one 32nd of `n + 132`.
pub sample_heard_near :
    (n : ℕ)
    → n ≤ 32635
    → ((m : ℕ) × (mulaw_to_linear (linear_to_mulaw (pos n)) ≡ pos m)
        × (32 * m ≤ 32 * n + n + 132)
        × (32 * n ≤ 32 * m + n + 132))
      × ((m : ℕ) × (mulaw_to_linear (linear_to_mulaw (negative n)) ≡ negative m)
          × (32 * m ≤ 32 * n + n + 132)
          × (32 * n ≤ 32 * m + n + 132))
unfolding linear_to_mulaw sign_of clipped negative
sample_heard_near n le =
    let (m, e, above, below) = heard_byte 0 n (inl refl) le in
    let same : min (min n 32767) 32635 ≡ n = ground arith in
    ((m, ap (λ x. mulaw_to_linear (mulaw_byte 0 (x + 132))) same ∙ e, above, below), by_sign n le)
  where
    by_sign :
        (n : ℕ)
        → n ≤ 32635
        → (m : ℕ) × (mulaw_to_linear (linear_to_mulaw (negative n)) ≡ negative m)
          × (32 * m ≤ 32 * n + n + 132)
          × (32 * n ≤ 32 * m + n + 132)
    by_sign zero le = (0, zero_heard, omega arith, omega arith)
    by_sign (suc k) le =
        let (m, e, above, below) = heard_byte 128 (suc k) (inr refl) le in
        let same : min (min (suc k) 32768) 32635 ≡ suc k = ground arith in
        (m, ap (λ x. mulaw_to_linear (mulaw_byte 128 (x + 132))) same ∙ e, above, below)
