-- ===== src/Core/Filter/Mask.antt =====
-- Masked exclusive or, the index arithmetic of the filter: the two candidates of a fingerprint are each
-- other's alternate.
use Prim.Native.Nat.{bit_and, bit_xor, digits, differ, bit_and-bitwise, bit_xor-bitwise}
use native.Mathlib.Nat.{pow-suc}
use dlr.Prelude.{
  ℕ, zero, suc, ◌+◌, ◌-◌, ◌*◌, ◌/◌, ◌%◌, ◌^◌, ◌≤◌, ◌<◌, min, ◌≡◌, ◌⊎◌, inl, inr, refl, ap, ◌∙◌,
  arith,
}

-- The digits of a number are all read when there is a round for each of its units.
module _ (z : ℕ → ℕ) (f : ℕ → ℕ → ℕ) where
  one_round_more : (n a b : ℕ) → a ≤ n → digits z f (suc n) a b ≡ digits z f n a b
  one_round_more zero zero b enough = refl
  one_round_more zero (suc a) b enough = absurd (omega (arith, enough))
  one_round_more (suc n) zero b enough = refl
  one_round_more (suc n) (suc a) b enough =
      ap (λ high. high * 2 + f (suc a % 2) (b % 2))
        (one_round_more n (suc a / 2) (b / 2) (omega (arith, enough)))

  rounds_more : (k n a b : ℕ) → a ≤ n → digits z f (k + n) a b ≡ digits z f n a b
  rounds_more zero n a b enough = ap (λ m. digits z f m a b) (omega arith)
  rounds_more (suc k) n a b enough =
      let next : suc k + n ≡ suc (k + n) = omega arith in
      ap (λ m. digits z f m a b) next
      ∙ one_round_more (k + n) a b (omega (arith, enough))
      ∙ rounds_more k n a b enough

  digits_step :
      (a b : ℕ)
      → digits z f (suc a) (suc a) b
        ≡ digits z f (suc a / 2) (suc a / 2) (b / 2) * 2 + f (suc a % 2) (b % 2)
  digits_step a b =
      let h = suc a / 2 in
      let spare : a ≡ (a - h) + h = omega arith in
      let high : digits z f a h (b / 2) ≡ digits z f h h (b / 2) =
        ap (λ n. digits z f n h (b / 2)) spare ∙ rounds_more (a - h) h h (b / 2) (omega arith) in
      ap (λ r. r * 2 + f (suc a % 2) (b % 2)) high

bit_xor_step : (a b : ℕ) → bit_xor a b ≡ bit_xor (a / 2) (b / 2) * 2 + differ (a % 2) (b % 2)
bit_xor_step zero b = omega (arith, bit_xor-bitwise 0 b, bit_xor-bitwise 0 (b / 2))
bit_xor_step (suc a) b = omega (
  arith,
  bit_xor-bitwise (suc a) b,
  bit_xor-bitwise (suc a / 2) (b / 2),
  digits_step (λ b. b) differ a b,
)

bit_and_halves : (x m : ℕ) → bit_and x m ≡ min (x % 2) (m % 2) + 2 * bit_and (x / 2) (m / 2)
bit_and_halves zero m = omega (arith, bit_and-bitwise 0 m, bit_and-bitwise 0 (m / 2))
bit_and_halves (suc x) m =
    let low = bit_and-bitwise (suc x) m in
    let high = bit_and-bitwise (suc x / 2) (m / 2) in
    omega (arith, low, high, digits_step (λ b. zero) min x m)

no_mask_fuel : (n a : ℕ) → a ≤ n → bit_and a 0 ≡ 0
no_mask_fuel n zero h = refl
no_mask_fuel zero (suc a) h = absurd (omega arith)
no_mask_fuel (suc n) (suc a) h =
    omega (arith, bit_and_halves (suc a) 0, no_mask_fuel n (suc a / 2) (omega arith))

bit-cases : (n : ℕ) → (n % 2 ≡ 0) ⊎ (n % 2 ≡ 1)
bit-cases n = ground arith

differ-lt : (a b : ℕ) → differ (a % 2) (b % 2) < 2
differ-lt a b = elim (bit-cases a) [
  | inl e ↦ rw e (omega arith)
  | inr e ↦ elim (bit-cases b) [ inl g ↦ rw (e, g) (omega arith) | inr g ↦ rw (e, g) (omega arith) ]
]

differ-differ : (a b : ℕ) → differ (differ (a % 2) (b % 2)) (b % 2) ≡ a % 2
differ-differ a b = elim (bit-cases a) [
  | inl e ↦ elim (bit-cases b) [ inl g ↦ rw (e, g) | inr g ↦ rw (e, g) ]
  | inr e ↦ elim (bit-cases b) [ inl g ↦ rw (e, g) | inr g ↦ rw (e, g) ]
]

-- `(i ^ d) & m`
abbrev pub masked : ℕ → ℕ → ℕ → ℕ
masked m i d = bit_and (bit_xor i d) m

masked_step :
    (m i d : ℕ)
    → m % 2 ≡ 1
    → masked m i d ≡ masked (m / 2) (i / 2) (d / 2) * 2 + differ (i % 2) (d % 2)
masked_step m i d odd =
    let half : bit_xor i d / 2 ≡ bit_xor (i / 2) (d / 2) =
      omega (arith, bit_xor_step i d, differ-lt i d) in
    let last : bit_xor i d % 2 ≡ differ (i % 2) (d % 2) =
      omega (arith, bit_xor_step i d, differ-lt i d) in
    bit_and_halves (bit_xor i d) m ∙ rw (half, last, odd) (omega (arith, differ-lt i d))

pub masked-lt : (k m i d : ℕ) → m + 1 ≡ 2 ^ k → masked m i d < 2 ^ k
masked-lt zero m i d h =
    let none : m ≡ 0 = omega (arith, h) in
    rw (none, no_mask_fuel (bit_xor i d) (bit_xor i d) (omega arith)) (omega arith)
masked-lt (suc k) m i d h =
    let grown = pow-suc 2 k in
    omega (
      arith,
      h,
      grown,
      masked_step m i d (omega (arith, h, grown)),
      masked-lt k (m / 2) (i / 2) (d / 2) (omega (arith, h, grown)),
      differ-lt i d,
    )

pub masked-masked : (k m i d : ℕ) → m + 1 ≡ 2 ^ k → i < 2 ^ k → masked m (masked m i d) d ≡ i
masked-masked zero m i d h lt =
    let none : m ≡ 0 = omega (arith, h) in
    rw (none, no_mask_fuel (bit_xor (masked 0 i d) d) (bit_xor (masked 0 i d) d) (omega arith))
      (omega (arith, lt))
masked-masked (suc k) m i d h lt =
    let grown = pow-suc 2 k in
    let odd : m % 2 ≡ 1 = omega (arith, h, grown) in
    let one = masked_step m i d odd in
    let half : masked m i d / 2 ≡ masked (m / 2) (i / 2) (d / 2) =
      omega (arith, one, differ-lt i d) in
    let last : masked m i d % 2 ≡ differ (i % 2) (d % 2) = omega (arith, one, differ-lt i d) in
    let rest =
      masked-masked k (m / 2) (i / 2) (d / 2) (omega (arith, h, grown))
        (omega (arith, lt, grown)) in
    let two : masked m (masked m i d) d ≡ i / 2 * 2 + i % 2 =
      masked_step m (masked m i d) d odd ∙ rw (half, last, rest, differ-differ i d) in
    two ∙ omega arith

pub bit_and-lt : (k m a : ℕ) → m + 1 ≡ 2 ^ k → bit_and a m < 2 ^ k
bit_and-lt zero m a h =
    let none : m ≡ 0 = omega (arith, h) in rw (none, no_mask_fuel a a (omega arith)) (omega arith)
bit_and-lt (suc k) m a h =
    let grown = pow-suc 2 k in
    omega
      (arith, h, grown, bit_and_halves a m, bit_and-lt k (m / 2) (a / 2) (omega (arith, h, grown)))
