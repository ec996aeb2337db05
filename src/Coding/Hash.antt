-- ===== src/Coding/Hash.antt =====
-- crates/coding/src/fib_hash.rs: Fibonacci hashing to shards.
use Prim.Native.Nat.{bit_xor}
use native.Mathlib.Nat.{div-lt_iff_lt-mul, pow-suc}
use dlr.Prelude.{ℕ, zero, suc, ◌+◌, ◌-◌, ◌*◌, ◌/◌, ◌%◌, ◌^◌, ◌≤◌, ◌<◌, ◌≡◌, sym, arith}

-- `floor(2^64 / phi)`
abbrev pub golden64 : ℕ
golden64 = 0x9E3779B97F4A7C15

-- `x.wrapping_mul(GOLDEN64) >> (64 - b)`, for `b` up to 64.
unfoldable pub top_bits : ℕ → ℕ → ℕ
top_bits x b = (x * golden64 % 2 ^ 64) / 2 ^ (64 - b)

-- The high lane is folded into the low one.
unfoldable pub fib_hash64 : ℕ → ℕ → ℕ
unfolding top_bits
fib_hash64 key b = top_bits (bit_xor (key % 2 ^ 64) (key / 2 ^ 64)) b

unfoldable pub fib_hash64_u64 : ℕ → ℕ → ℕ
unfolding top_bits
fib_hash64_u64 key b = top_bits key b

pow_sum : (a b : ℕ) → 2 ^ (a + b) ≡ 2 ^ a * 2 ^ b
pow_sum zero b = let e : 0 + b ≡ b = omega arith in rw e (omega arith)
pow_sum (suc a) b =
    let left : 2 ^ suc (a + b) ≡ 2 ^ (a + b) * 2 = pow-suc 2 (a + b) in
    let right : 2 ^ suc a ≡ 2 ^ a * 2 = pow-suc 2 a in
    let shift : suc a + b ≡ suc (a + b) = omega arith in
    rw (shift, left, right, pow_sum a b) (swap (2 ^ a) (2 ^ b))
  where
    swap : (x y : ℕ) → x * y * 2 ≡ x * 2 * y
    swap x y = grind arith

pub pow_pos : (a : ℕ) → 1 ≤ 2 ^ a
pow_pos zero = omega arith
pow_pos (suc a) = omega (arith, pow_pos a, pow-suc 2 a)

pub top_bits-lt : (x b : ℕ) → b ≤ 64 → top_bits x b < 2 ^ b
unfolding top_bits
top_bits-lt x b h =
    let whole : b + (64 - b) ≡ 64 = omega arith in
    let split : 2 ^ b * 2 ^ (64 - b) ≡ 2 ^ 64 = rw whole at (sym (pow_sum b (64 - b))) in
    (div-lt_iff_lt-mul (pow_pos (64 - b))).1 (rw split (omega arith))

-- For a shard space of `b` bits, `b` from 1 to 64, both hashes of every key are shards of the space.
pub fib_hash64-lt :
    (key b : ℕ) → 1 ≤ b → b ≤ 64 → (fib_hash64 key b < 2 ^ b) × (fib_hash64_u64 key b < 2 ^ b)
unfolding fib_hash64 fib_hash64_u64
fib_hash64-lt key b low high =
    (top_bits-lt (bit_xor (key % 2 ^ 64) (key / 2 ^ 64)) b high, top_bits-lt key b high)
