-- ===== src/Coding/Bulk/Whole.antt =====
-- crates/coding/src/bulk.rs: a payload through `encode` and `decode`.
use native.Mathlib.Nat.{zero-mul}
use dlr.Prelude.{
  true, ℕ, zero, suc, ◌+◌, ◌-◌, ◌*◌, ◌%◌, ◌^◌, ◌≤◌, ◌<◌, ◌≡◌, refl, sym, ap, ◌∙◌, arith, List, [],
  ◌∷◌, ◌++◌, length, take, drop, some, false, ltb, ◌==◌, append_assoc, append-nil, take-append_len,
  take-append-drop, drop-drop, drop-append_len, All-append, All-weaken,
}
use dlr.Prelude.Results.{ok}
use dlr.Prelude.Assoc.{Assoc}
use dlr.Core.Bytes.{Bytes}
use dlr.Core.Merkle.{replicate}
use dlr.Coding.Fountain.{new_decoder, decode}
use dlr.Coding.Fountain.Encoder.{FountainEncoder, systematic_from, produce}
use dlr.Coding.Fountain.Systematic.{add_all, produce-systematic, decode-systematic}
use dlr.Coding.Bulk.{div_ceil_max, slices, new_shared, numbered, encode_generations, encode}
use dlr.Coding.Bulk.Slices.{div_ceil_max-pos, slices-sizes, length-slices, length-systematic_from}
use dlr.Coding.Bulk.Machine.{times_le, generations, padded_len, padded, length-padded, full_le}
use dlr.Coding.Bulk.Reassembly.{group_symbols, decode_groups, bulk_decode}
use dlr.Coding.Bulk.Groups.{Below, group_symbols-numbered, fill_region-slices}

module _ (soliton : ℕ → ℕ → ℕ) (buf : Bytes) (k size : ℕ) (some_k : 0 < k) (some_size : 0 < size)
    (small : k ≤ 2 ^ 16) where
  abbrev full : ℕ
  full = k * size

  abbrev source : ℕ → List Bytes
  source gi = slices buf size (gi * full) k

  -- The groups of `n` generations from `gi` on.
  abbrev sent : ℕ → ℕ → Assoc ℕ (List Bytes)
  sent gi zero = []
  sent gi (suc n) = (gi, systematic_from 0 (source gi)) ∷ sent (gi + 1) n

  decode-source :
      (gi : ℕ)
      → gi * full + full ≤ length buf
      → (decode (add_all (systematic_from 0 (source gi)) (new_decoder k size))).1 ≡ ok (source gi)
  decode-source gi h =
      let all = length-slices buf size k (gi * full) in
      ap (λ n. (decode (add_all (systematic_from 0 (source gi)) (new_decoder n size))).1) (sym all)
      ∙ decode-systematic (source gi) size (omega (arith, all, small))
          (slices-sizes buf size k (gi * full) h)

  drop_whole : (n : ℕ) → n ≡ length buf → [] ≡ drop n buf
  drop_whole n h = sym (drop-append_len n buf [] (sym h)) ∙ ap (drop n) (append-nil buf)

  decode_groups-sent :
      (gi n : ℕ)
      → (gi + n) * full ≡ length buf
      → decode_groups full k size (sent gi n) ≡ ok (drop (gi * full) buf)
  unfolding decode_groups
  decode_groups-sent gi zero h = ap ok (drop_whole (gi * full) (omega (arith, h)))
  decode_groups-sent gi (suc n) h =
      let room : gi * full + full ≤ length buf = omega (arith, h) in
      let next : (gi + 1 + n) * full ≡ length buf = omega (arith, h) in
      rw
        (
          decode_groups,
          decode-source gi room,
          decode_groups-sent (gi + 1) n next,
          fill_region-slices buf size k (gi * full) room,
        )
        (ap (λ (l : Bytes). ok (take full (drop (gi * full) buf) ++ l))
            (ap (λ at. drop at buf) (omega arith) ∙ sym (drop-drop full (gi * full) buf))
          ∙ ap ok (take-append-drop full (drop (gi * full) buf)))

  abbrev encoder : ℕ → FountainEncoder
  encoder gi = record { source = source gi; generation = gi; repair_index = 0 }

  new_shared-source :
      (gi : ℕ)
      → gi * full + full ≤ length buf
      → new_shared buf (gi * full) size k gi ≡ ok (encoder gi)
  unfolding new_shared
  new_shared-source gi h =
      let some_k' : (k == 0) ≡ false = ground (arith, some_k) in
      let some_s : (size == 0) ≡ false = ground (arith, some_size) in
      let room : ltb (length buf) (gi * full + full) ≡ false = ground (arith, h) in
      rw (new_shared, some_k', some_s, room)

  produce-source : (gi : ℕ) → (produce soliton k (encoder gi)).1 ≡ systematic_from 0 (source gi)
  produce-source gi =
      ap (λ n. (produce soliton n (encoder gi)).1) (sym (length-slices buf size k (gi * full)))
      ∙ produce-systematic soliton (encoder gi)

  length-sent : (gi n : ℕ) → length (sent gi n) ≡ n
  length-sent gi zero = refl
  length-sent gi (suc n) = ap suc (length-sent (gi + 1) n)

  encode_generations-sent :
      (repair : ℕ → ℕ → ℕ) (gi n : ℕ)
      → (gi + n) * full ≤ length buf
      → gi + n ≤ 2 ^ 32
      → (coded : List (ℕ × Bytes)) × (encode_generations soliton repair buf k size k gi n
          ≡ some coded)
        × ((groups : Assoc ℕ (List Bytes))
            → Below gi groups
            → group_symbols coded groups ≡ groups ++ sent gi n)
  unfolding encode_generations group_symbols
  encode_generations-sent repair gi zero h ids = ([], refl, λ groups low. sym (append-nil groups))
  encode_generations-sent repair gi (suc n) h ids =
      let ws = systematic_from 0 (source gi) in
      let wraps : gi % 2 ^ 32 ≡ gi = omega (arith, ids) in
      let made : new_shared buf (gi * full) size k (gi % 2 ^ 32) ≡ ok (encoder gi) =
        ap (new_shared buf (gi * full) size k) wraps ∙ new_shared-source gi (omega (arith, h)) in
      let (rest, encoded, grouped) =
        encode_generations-sent repair (gi + 1) n (omega (arith, h)) (omega (arith, ids)) in
      let some_ws : 1 ≤ length ws = omega (
        arith,
        some_k,
        length-systematic_from 0 (source gi),
        length-slices buf size k (gi * full),
      ) in
      (
        numbered gi ws ++ rest,
        rw (encode_generations, made, encoded, produce-source gi)
            (ap (λ gen. some (numbered gen ws ++ rest)) wraps),
        λ groups low.
            group_symbols-numbered gi ws rest groups some_ws low
            ∙ grouped (groups ++ ((gi, ws) ∷ [])) (
                All-append _ groups ((gi, ws) ∷ [])
                  (All-weaken _ _ groups (λ g below. omega (arith, below)) low) (omega arith, tt))
            ∙ append_assoc groups ((gi, ws) ∷ []) (sent (gi + 1) n),
      )

module _ (soliton repair : ℕ → ℕ → ℕ) (k size pct : ℕ) (payload : Bytes) where
  -- A payload that is not empty comes back whole from `decode` with its length, when `encode` adds no
  -- repair symbols and every symbol arrives in order: for symbols and generations of a size that is
  -- not 0, with at most 2 ^ 16 symbols in a generation, 2 ^ 32 generations, and a padded payload of
  -- less than 2 ^ 64 bytes.
  pub bulk_decode-encode :
      1 ≤ length payload
      → 0 < k
      → 0 < size
      → k ≤ 2 ^ 16
      → generations k size payload ≤ 2 ^ 32
      → padded_len k size payload < 2 ^ 64
      → repair k pct ≡ 0
      → (coded : List (ℕ × Bytes)) × (encode soliton repair k size pct payload ≡ some coded)
        × (bulk_decode k size coded (length payload) ≡ some (ok payload))
  unfolding encode bulk_decode
  bulk_decode-encode some_bytes some_k some_size small few fits lossless =
      let n = generations k size payload in
      let buf = padded k size payload in
      let zeros = replicate (padded_len k size payload - length payload) 0 in
      let whole = length-padded k size payload some_bytes some_k some_size in
      let groups_of = sent soliton buf k size some_k some_size small 0 n in
      let (coded, encoded, grouped) =
        encode_generations-sent soliton buf k size some_k some_size small repair 0 n
          (omega (arith, whole)) (omega (arith, few)) in
      let groups : group_symbols coded [] ≡ groups_of = grouped [] tt in
      let decoded =
        decode_groups-sent soliton buf k size some_k some_size small 0 n (omega (arith, whole)) in
      let some_payload : (length payload == 0) ≡ false = ground (arith, some_bytes) in
      let count : k + repair k pct ≡ k = omega (arith, lossless) in
      let all_groups : length groups_of ≡ n =
        length-sent soliton buf k size some_k some_size small 0 n in
      let some_groups : (n == 0) ≡ false =
        ground (arith, div_ceil_max-pos (div_ceil_max (length payload) size) k) in
      let exact : k * size % 2 ^ 64 ≡ k * size = omega (arith, fits, full_le k size payload) in
      let some_room : (k * size == 0) ≡ false =
        ground (arith, times_le 1 k size some_k, some_size) in
      let within : ltb (n * (k * size)) (2 ^ 64) ≡ true = ground (arith, fits) in
      (
        coded,
        rw (encode, some_payload, count) encoded,
        rw
            (
              bulk_decode,
              groups,
              exact,
              all_groups,
              some_groups,
              some_room,
              within,
              decoded,
              zero-mul (k * size),
            )
            (ap (λ (l : Bytes). some (ok l)) (take-append_len (length payload) payload zeros refl)),
      )
