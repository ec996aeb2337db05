-- ===== src/Coding/Fountain/Encoder.antt =====
-- crates/coding/src/fountain.rs: the encoder. What the floating-point distribution makes of a draw of
-- 53 bits, as a degree less one, is a parameter.
use dlr.Prelude.{
  get_or, ℕ, zero, suc, ◌+◌, ◌-◌, ◌*◌, ◌/◌, ◌%◌, ◌^◌, List, [], ◌∷◌, ◌++◌, length, take, Option,
  none, some, Bool, true, false, ltb, ◌==◌, if◌then◌else◌, min,
}
use Prim.Native.Nat.{bit_xor, bit_or}
use dlr.Prelude.Results.{Result, ok, err}
use dlr.Core.Bytes.{Bytes, to_le}
use dlr.Core.Merkle.{replicate}
use dlr.Coding.Gf256.{gf_axpy_slice}
use dlr.Coding.Fountain.{FountainError, empty, size_mismatch}

-- `(z ^ (z >> n)).wrapping_mul(m)` on a `u64`
abbrev mix : ℕ → ℕ → ℕ → ℕ
mix z n m = bit_xor z (z / 2 ^ n) * m % 2 ^ 64

unfoldable pub new_rng : ℕ → ℕ
new_rng seed =
    let z = (seed * 0x9E3779B97F4A7C15 + 0xA5A5A5A5) % 2 ^ 64 in
    let z' = mix (mix z 30 0xBF58476D1CE4E5B9) 27 0x94D049BB133111EB in bit_xor z' (z' / 2 ^ 31)

-- The next state, and the number drawn.
unfoldable pub next_u64 : ℕ → ℕ × ℕ
next_u64 state =
    let state' = (state + 0x9E3779B97F4A7C15) % 2 ^ 64 in
    let z = mix (mix state' 30 0xBF58476D1CE4E5B9) 27 0x94D049BB133111EB in
    (state', bit_xor z (z / 2 ^ 31))

unfoldable pub next_below : ℕ → ℕ → ℕ × ℕ
next_below n state =
    let (state', z) = next_u64 state in if n == 0 then (state, 0) else (state', z / 2 ^ 40 % n)

pub record FountainEncoder : Type 0 where
  pub source : List Bytes
  pub generation : ℕ
  pub repair_index : ℕ

abbrev pub all_len : ℕ → List Bytes → Option ℕ
all_len n [] = none
all_len n (s ∷ ss) = let rest = all_len n ss in if length s == n then rest else some (length s)

unfoldable pub new_encoder : List Bytes → ℕ → Result FountainError FountainEncoder
new_encoder [] generation = err empty
new_encoder (s ∷ ss) generation = elim (all_len (length s) (s ∷ ss)) [
  | some n ↦ err (size_mismatch (length s) n)
  | none ↦ ok (record { source = s ∷ ss; generation = generation; repair_index = 0 })
]

unfoldable pub contains : ℕ → List ℕ → Bool
contains idx [] = false
contains idx (i ∷ is) = let rest = contains idx is in if i == idx then true else rest

-- The rounds that are left of the `10 * k` draws.
unfoldable pub choose : ℕ → ℕ → ℕ → List ℕ → ℕ → List ℕ × ℕ
choose zero k degree chosen state = (chosen, state)
choose (suc guard) k degree chosen state =
    let (state', idx) = next_below k state in
    let rest =
      choose guard k degree (if contains idx chosen then chosen else chosen ++ (idx ∷ [])) state' in
    if ltb (length chosen) degree then rest else (chosen, state)

unfoldable pub draw_coeffs : ℕ → ℕ → List ℕ
draw_coeffs zero state = []
draw_coeffs (suc n) state =
    let (state', z) = next_u64 state in bit_or (z % 256) 1 ∷ draw_coeffs n state'

unfoldable pub mix_sources : List Bytes → List ℕ → List ℕ → Bytes → Bytes
mix_sources source [] coeffs payload = payload
mix_sources source (idx ∷ chosen) [] payload = payload
mix_sources source (idx ∷ chosen) (c ∷ coeffs) payload =
    mix_sources source chosen coeffs (gf_axpy_slice c (get_or [] source idx) payload)

unfoldable pub cover_bytes : List ℕ → List ℕ → Bytes
cover_bytes [] coeffs = []
cover_bytes (idx ∷ chosen) [] = []
cover_bytes (idx ∷ chosen) (c ∷ coeffs) = to_le 2 idx ++ (c ∷ cover_bytes chosen coeffs)

-- A source symbol as it is, with the unit vector.
unfoldable pub systematic : ℕ → Bytes → Bytes
systematic i src = to_le 2 1 ++ (to_le 2 i ++ (1 ∷ src))

unfoldable pub systematic_from : ℕ → List Bytes → List Bytes
systematic_from i [] = []
systematic_from i (src ∷ source) = systematic i src ∷ systematic_from (i + 1) source

abbrev symbol_size_of : List Bytes → ℕ
symbol_size_of [] = 0
symbol_size_of (s ∷ ss) = length s

module _ (soliton : ℕ → ℕ → ℕ) where
  -- `(idx + 1).clamp(1, k)`
  unfoldable pub soliton_degree : ℕ → ℕ → ℕ × ℕ
  soliton_degree k state =
      let (state', z) = next_u64 state in (state', min (soliton k (z / 2 ^ 11) + 1) k)

  unfoldable pub repair_symbol : FountainEncoder → FountainEncoder × Bytes
  repair_symbol e =
      let k = length e.source in
      let index = e.repair_index + 1 in
      let seed = bit_or (e.generation * 2 ^ 40 % 2 ^ 64) index in
      let (state, degree) = soliton_degree k (new_rng seed) in
      let (chosen, state') = choose (10 * k) k degree [] state in
      let coeffs = draw_coeffs (length chosen) state' in
      let payload = mix_sources e.source chosen coeffs (replicate (symbol_size_of e.source) 0) in
      (
        record e { repair_index = index },
        to_le 2 (length chosen) ++ (cover_bytes chosen coeffs ++ payload),
      )

  unfoldable pub repair_symbols : ℕ → FountainEncoder → FountainEncoder × List Bytes
  repair_symbols zero e = (e, [])
  repair_symbols (suc n) e =
      let (e', wire) = repair_symbol e in
      let (e'', rest) = repair_symbols n e' in (e'', wire ∷ rest)

  unfoldable pub produce : ℕ → FountainEncoder → FountainEncoder × List Bytes
  produce count e =
      let (e', repairs) = repair_symbols (count - length e.source) e in
      (e', systematic_from 0 (take count e.source) ++ repairs)
