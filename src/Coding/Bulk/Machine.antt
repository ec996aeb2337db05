-- ===== src/Coding/Bulk/Machine.antt =====
-- crates/coding/src/bulk.rs: `encode` in the arithmetic of `usize`, which wraps in a build without
-- overflow checks and panics in one with them, and its agreement with `encode` on exact numbers.
use dlr.Prelude.{
  ℕ, zero, suc, ◌+◌, ◌-◌, ◌*◌, ◌%◌, ◌^◌, ◌≤◌, ◌<◌, ◌≡◌, refl, sym, ap, ap₂, ◌∙◌, arith, List, [],
  ◌++◌, length, take, Option, none, some, false, ◌==◌, if◌then◌else◌, length-append, take-length,
}
use dlr.Prelude.Results.{Result, ok, err}
use dlr.Core.Bytes.{Bytes}
use dlr.Core.Merkle.{replicate}
use dlr.Coding.Fountain.{FountainError}
use dlr.Coding.Fountain.Encoder.{FountainEncoder, produce}
use dlr.Coding.Bulk.{div_ceil_max, new_shared, numbered, encode_generations, encode}
use dlr.Coding.Bulk.Slices.{div_ceil_max-le, div_ceil_max-pos, length-replicate}

-- `Vec::resize` with zeros.
abbrev pub resize : ℕ → Bytes → Bytes
resize n bytes = take n (bytes ++ replicate (n - length bytes) 0)

module _ (soliton : ℕ → ℕ → ℕ) (repair : ℕ → ℕ → ℕ) where
  -- The generations from `gi` on, `n` of them, each of `full` bytes.
  unfoldable pub encode_generations_usize :
      Bytes → ℕ → ℕ → ℕ → ℕ → ℕ → ℕ → Option (List (ℕ × Bytes))
  encode_generations_usize buf gen_size symbol_size full count gi zero = some []
  encode_generations_usize buf gen_size symbol_size full count gi (suc n) =
      elim (new_shared buf (gi * full % 2 ^ 64) symbol_size gen_size (gi % 2 ^ 32)) [
        | err e ↦ none
        | ok enc ↦ elim (encode_generations_usize buf gen_size symbol_size full count (gi + 1) n) [
          | none ↦ none
          | some rest ↦ some (numbered (gi % 2 ^ 32) (produce soliton count enc).1 ++ rest)
        ]
      ]

  -- None is an error.
  unfoldable pub encode_usize : ℕ → ℕ → ℕ → Bytes → Option (List (ℕ × Bytes))
  encode_usize gen_size symbol_size pct payload =
      let count = (gen_size + repair gen_size pct) % 2 ^ 64 in
      let full = gen_size * symbol_size % 2 ^ 64 in
      let total_syms = div_ceil_max (length payload) symbol_size in
      let total_full_gens = div_ceil_max total_syms gen_size in
      let padded_len = total_full_gens * full % 2 ^ 64 in
      let padded = resize padded_len payload in
      if length payload == 0
      then none
      else encode_generations_usize padded gen_size symbol_size full count 0 total_full_gens

  encode_generations_usize-exact :
      (buf : Bytes) (k size count gi n : ℕ)
      → (gi + n) * (k * size) < 2 ^ 64
      → encode_generations_usize buf k size (k * size) count gi n
        ≡ encode_generations soliton repair buf k size count gi n
  unfolding encode_generations_usize encode_generations
  encode_generations_usize-exact buf k size count gi zero h = refl
  encode_generations_usize-exact buf k size count gi (suc n) h =
      let at : gi * (k * size) % 2 ^ 64 ≡ gi * (k * size) = omega (arith, h) in
      ap₂
        (λ (made : Result FountainError FountainEncoder) (more : Option (List (ℕ × Bytes))).
          elim made as (λ r. Option (List (ℕ × Bytes))) [
            | err e ↦ none
            | ok enc ↦ elim more as (λ r. Option (List (ℕ × Bytes))) [
              | none ↦ none
              | some rest ↦ some (numbered (gi % 2 ^ 32) (produce soliton count enc).1 ++ rest)
            ]
          ])
        (ap (λ offset. new_shared buf offset size k (gi % 2 ^ 32)) at)
        (encode_generations_usize-exact buf k size count (gi + 1) n (omega (arith, h)))

pub times_le : (n m size : ℕ) → n ≤ m → n * size ≤ m * size
times_le n m size h =
    let split : m ≡ n + (m - n) = omega (arith, h) in
    let spread : m * size ≡ (n + (m - n)) * size = ap (λ l. l * size) split in omega (arith, spread)

module _ (k size : ℕ) (payload : Bytes) where
  abbrev pub generations : ℕ
  generations = div_ceil_max (div_ceil_max (length payload) size) k

  abbrev pub padded_len : ℕ
  padded_len = generations * (k * size)

  abbrev pub padded : Bytes
  padded = payload ++ replicate (padded_len - length payload) 0

  pub length-padded : 1 ≤ length payload → 0 < k → 0 < size → length padded ≡ padded_len
  length-padded some_bytes some_k some_size =
      let syms = div_ceil_max (length payload) size in
      omega (
        arith,
        length-append payload (replicate (padded_len - length payload) 0),
        length-replicate (padded_len - length payload) 0,
        div_ceil_max-le (length payload) size some_bytes some_size,
        times_le syms (generations * k) size
            (div_ceil_max-le syms k (div_ceil_max-pos (length payload) size) some_k),
      )

  pub full_le : k * size ≤ padded_len
  full_le = omega (
    arith,
    times_le 1 generations (k * size) (div_ceil_max-pos (div_ceil_max (length payload) size) k),
  )

  -- While the padded payload and the number of symbols are `usize`s, nothing wraps.
  pub encode_usize-encode :
      (soliton repair : ℕ → ℕ → ℕ) (pct : ℕ)
      → 1 ≤ length payload
      → 0 < k
      → 0 < size
      → padded_len < 2 ^ 64
      → k + repair k pct < 2 ^ 64
      → encode_usize soliton repair k size pct payload ≡ encode soliton repair k size pct payload
  unfolding encode_usize encode
  encode_usize-encode soliton repair pct some_bytes some_k some_size fits few =
      let some_payload : (length payload == 0) ≡ false = ground (arith, some_bytes) in
      let count : (k + repair k pct) % 2 ^ 64 ≡ k + repair k pct = omega (arith, few) in
      let full : k * size % 2 ^ 64 ≡ k * size = omega (arith, fits, full_le) in
      let len : padded_len % 2 ^ 64 ≡ padded_len = omega (arith, fits) in
      let all : resize padded_len payload ≡ padded =
        ap (λ n. take n padded) (sym (length-padded some_bytes some_k some_size))
        ∙ take-length padded in
      rw (
        encode_usize,
        encode,
        some_payload,
        count,
        full,
        len,
        all,
        encode_generations_usize-exact soliton repair padded k size (k + repair k pct) 0 generations
            (omega (arith, fits)),
      )
