-- ===== src/Core/Session.antt =====
-- crates/core/src/session.rs: a session's shard. The tests of a power of two are the standard
-- library's, on a `u64`.
use native.Mathlib.Nat.{pow-suc, mod-lt}
use dlr.Prelude.{
  ℕ, zero, suc, ◌+◌, ◌-◌, ◌*◌, ◌/◌, ◌%◌, ◌^◌, ◌≤◌, ◌<◌, ◌≡◌, refl, arith, Bool, true, false, ◌==◌,
  if◌then◌else◌, ==_iff, Bool-cases, inl, inr,
}
use dlr.Coding.Hash.{top_bits, top_bits-lt, pow_pos, fib_hash64_u64}

unfoldable pub phi : ℕ
phi = 0x9E3779B97F4A7C15

-- With so many bits to look at.
unfoldable pub trailing_zeros : ℕ → ℕ → ℕ
trailing_zeros zero n = 0
trailing_zeros (suc bits) n =
    let rest = trailing_zeros bits (n / 2) in if n % 2 == 0 then rest + 1 else 0

unfoldable pub is_power_of_two : ℕ → Bool
is_power_of_two n = n == 2 ^ trailing_zeros 64 n

unfoldable pub shard : ℕ → ℕ → ℕ
shard id n =
    let prod = id % 2 ^ 64 * phi % 2 ^ 64 in
    if n == 1
    then 0
    else if is_power_of_two n
    then prod / 2 ^ (64 - trailing_zeros 64 n)
    else prod % n

trailing_zeros-le : (bits n : ℕ) → trailing_zeros bits n ≤ bits
unfolding trailing_zeros
trailing_zeros-le zero n = omega arith
trailing_zeros-le (suc bits) n = ground (arith, trailing_zeros-le bits (n / 2))

trailing_zeros-pow : (bits b : ℕ) → b < bits → trailing_zeros bits (2 ^ b) ≡ b
unfolding trailing_zeros
trailing_zeros-pow zero b h = absurd (omega arith)
trailing_zeros-pow (suc bits) zero h = refl
trailing_zeros-pow (suc bits) (suc b) h =
    let double = pow-suc 2 b in
    let even : (2 ^ suc b % 2 == 0) ≡ true = ground (arith, double) in
    let half : 2 ^ suc b / 2 ≡ 2 ^ b = omega (arith, double) in
    rw (even, half, trailing_zeros-pow bits b (omega (arith, h))) (omega arith)

-- Every session has one of the shards, for each number of shards that is not 0; and for 2 ^ b shards,
-- b from 1 to 63, it is the shard that the hash of crates/coding gives for the low half of the id.
pub shard-fib_hash64_u64 :
    (id n : ℕ)
    → 0 < n
    → (shard id n < n)
      × ((b : ℕ) → 1 ≤ b → b < 64 → shard id (2 ^ b) ≡ fib_hash64_u64 (id % 2 ^ 64) b)
unfolding shard is_power_of_two fib_hash64_u64 top_bits phi
shard-fib_hash64_u64 id n some_shards = (bounded, powers)
  where
    bounded : shard id n < n
    bounded = elim (Bool-cases (n == 1)) [
      | inl one ↦ rw (shard, one) some_shards
      | inr many ↦ elim (Bool-cases (is_power_of_two n)) [
        | inl q ↦
            let b = trailing_zeros 64 n in
            let same : n ≡ 2 ^ b = (==_iff n (2 ^ b)).0 q in
            rw (shard, many, q)
              (omega (arith, same, top_bits-lt (id % 2 ^ 64) b (trailing_zeros-le 64 n)))
        | inr q ↦ rw (shard, many, q) (mod-lt _ some_shards)
      ]
    ]

    powers : (b : ℕ) → 1 ≤ b → b < 64 → shard id (2 ^ b) ≡ fib_hash64_u64 (id % 2 ^ 64) b
    powers zero low high = absurd (omega arith)
    powers (suc b) low high =
        let z = trailing_zeros-pow 64 (suc b) high in
        let many : (2 ^ suc b == 1) ≡ false = ground (arith, pow-suc 2 b, pow_pos b) in
        let self : (2 ^ suc b == 2 ^ suc b) ≡ true = ground arith in
        let q : is_power_of_two (2 ^ suc b) ≡ true = rw (is_power_of_two, z) self in
        rw (shard, many, q, z)
