-- ===== src/Coding/Gf256.antt =====
-- crates/coding/src/gf256.rs: arithmetic in GF(2^8). The tables are what their loops leave in them.
-- The intrinsics of the SIMD kernels are left out: the scalar loop stands for the whole slice, and
-- `nibble_mul` for what a lane computes.
pub mod Tables
pub mod Gauss
use dlr.Prelude.{
  ℕ, zero, suc, ◌+◌, ◌-◌, ◌*◌, ◌/◌, ◌%◌, ◌^◌, List, [], ◌∷◌, ◌++◌, length, take, drop, Option, none,
  some, Bool, true, false, ltb, ◌==◌, if◌then◌else◌, ◌≡◌, refl,
}
use Prim.Native.Nat.{bit_and, bit_xor}
use dlr.Core.Bytes.{Bytes}

-- One round of the walk with generator 3, on a `u16`.
unfoldable pub next_power : ℕ → ℕ
next_power g =
    let g2 = bit_xor ((g * 2) % 2 ^ 16) (if bit_and g 0x80 == 0 then 0 else 0x11B) in
    bit_and (bit_xor g2 g) 0xFF

unfoldable pub walk : ℕ → ℕ → List ℕ
walk zero g = []
walk (suc n) g = g ∷ walk n (next_power g)

-- An array read; out of range is a panic, which no caller reaches.
abbrev pub at : List ℕ → ℕ → ℕ
at [] i = 0
at (x ∷ xs) zero = x
at (x ∷ xs) (suc i) = at xs i

-- `exp`: the walk twice, then `exp[510] = exp[255]`, and one entry that stays 0.
unfoldable pub exp_table : List ℕ
exp_table = walk 255 1 ++ (walk 255 1 ++ (1 ∷ 0 ∷ []))

-- `log[x]` behind the writes `log[g] = i`.
unfoldable pub written_log : ℕ → ℕ → List ℕ → ℕ → ℕ
written_log x i [] cur = cur
written_log x i (g ∷ gs) cur = written_log x (i + 1) gs (if g == x then i else cur)

unfoldable pub log_of : ℕ → ℕ
log_of x = if x == 0 then 0 else written_log x 0 (walk 255 1) 0

unfoldable pub gf_mul : ℕ → ℕ → ℕ
gf_mul a b = if a == 0 then 0 else if b == 0 then 0 else at exp_table (log_of a + log_of b)

unfoldable pub gf_inv : ℕ → ℕ
gf_inv a = if a == 0 then 0 else at exp_table (255 - log_of a)

-- `(la - lb).rem_euclid(255)` of two numbers below 255
unfoldable pub gf_div : ℕ → ℕ → ℕ
gf_div a b =
    if b == 0 then 0 else if a == 0 then 0 else at exp_table ((log_of a + 255 - log_of b) % 255)

-- `dst[i] ^= f(src[i])`, over the shorter length
unfoldable pub xor_with : (ℕ → ℕ) → Bytes → Bytes → Bytes
xor_with f [] dst = dst
xor_with f (s ∷ src) [] = []
xor_with f (s ∷ src) (d ∷ dst) = bit_xor d (f s) ∷ xor_with f src dst

unfoldable pub gf_axpy_slice : ℕ → Bytes → Bytes → Bytes
gf_axpy_slice a src dst =
    if a == 0
    then dst
    else if a == 1
    then xor_with (λ x. x) src dst
    else xor_with (gf_mul a) src dst

unfoldable pub map_bytes : (ℕ → ℕ) → Bytes → Bytes
map_bytes f [] = []
map_bytes f (d ∷ dst) = f d ∷ map_bytes f dst

unfoldable pub gf_scal_slice : ℕ → Bytes → Bytes
gf_scal_slice a dst =
    if a == 0 then map_bytes (λ d. 0) dst else if a == 1 then dst else map_bytes (gf_mul a) dst

-- The two 16-byte tables for a product by `a`: of the low nibbles, and of the high ones.
unfoldable pub nibble_row : ℕ → ℕ → ℕ → ℕ → List ℕ
nibble_row a shift i zero = []
nibble_row a shift i (suc n) = gf_mul a (i * shift) ∷ nibble_row a shift (i + 1) n

unfoldable pub mul_nibble_tables : ℕ → List ℕ
unfolding nibble_row
mul_nibble_tables a = nibble_row a 1 0 16 ++ nibble_row a 16 0 16

-- What a lane of the SIMD kernels computes: `lo[x & 0x0f] ^ hi[x >> 4]`.
unfoldable pub nibble_mul : ℕ → ℕ → ℕ
nibble_mul a x =
    let tabs = mul_nibble_tables a in bit_xor (at tabs (bit_and x 0x0F)) (at tabs (16 + x / 16))

-- `sum coeffs[i] * rows[i]`
unfoldable pub dot_into : Bytes → List Bytes → Bytes → Bytes
dot_into [] rows out = out
dot_into (c ∷ cs) [] out = out
dot_into (c ∷ cs) (r ∷ rows) out =
    if c == 0 then dot_into cs rows out else dot_into cs rows (gf_axpy_slice c r out)

unfoldable pub gf_dot : Bytes → List Bytes → Bytes
gf_dot coeffs [] = []
gf_dot coeffs (r ∷ rows) = dot_into coeffs (r ∷ rows) (map_bytes (λ b. 0) r)
