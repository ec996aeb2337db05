-- ===== src/Coding/Bulk/Interleaved.antt =====
-- crates/coding/src/bulk.rs: symbols of several generations that arrive interleaved at `decode`.
use dlr.Prelude.{
  ℕ, ◌^◌, ◌<◌, ◌≤◌, ◌≡◌, inl, inr, refl, sym, ap, ◌∙◌, arith, List, [], ◌∷◌, false, ltb, ◌==◌,
  length, Option, none, some, Bool-cases,
}
use dlr.Prelude.Assoc.{Assoc}
use dlr.Core.Bytes.{Bytes}
use dlr.Prelude.Results.{ok}
use dlr.Coding.Bulk.Machine.{encode_usize, encode_usize-encode, generations, padded_len}
use dlr.Coding.Bulk.Whole.{bulk_decode-encode}
use dlr.Coding.Bulk.Reassembly.{push_symbol, group_symbols, bulk_decode}

push_symbol_later :
    (gen other : ℕ) (w v : Bytes) (groups : Assoc ℕ (List Bytes))
    → gen < other
    → push_symbol gen w (push_symbol other v groups)
      ≡ push_symbol other v (push_symbol gen w groups)
unfolding push_symbol
push_symbol_later gen other w v [] lt = ground arith
push_symbol_later gen other w v ((g, ws) ∷ groups) lt =
    ground (arith, push_symbol_later gen other w v groups lt)

push_symbol-push_symbol :
    (gen other : ℕ) (w v : Bytes) (groups : Assoc ℕ (List Bytes))
    → (gen == other) ≡ false
    → push_symbol gen w (push_symbol other v groups)
      ≡ push_symbol other v (push_symbol gen w groups)
push_symbol-push_symbol gen other w v groups different = elim (Bool-cases (ltb gen other)) [
  | inl lower ↦ push_symbol_later gen other w v groups (ground (arith, lower))
  | inr higher ↦ sym (push_symbol_later other gen v w groups (ground (arith, higher, different)))
]

-- The same symbols in another order, in which each generation's own keep theirs.
pub data Interleaves : List (ℕ × Bytes) → List (ℕ × Bytes) → Type 0 where
  in_order : (xs : List (ℕ × Bytes)) → Interleaves xs xs
  behind :
      (x : ℕ × Bytes) (xs ys : List (ℕ × Bytes)) → Interleaves xs ys → Interleaves (x ∷ xs) (x ∷ ys)
  overtakes :
      (gen other : ℕ) (w v : Bytes) (xs : List (ℕ × Bytes))
      → (gen == other) ≡ false
      → Interleaves ((gen, w) ∷ (other, v) ∷ xs) ((other, v) ∷ (gen, w) ∷ xs)
  followed :
      (xs ys zs : List (ℕ × Bytes)) → Interleaves xs ys → Interleaves ys zs → Interleaves xs zs

group_symbols-Interleaves :
    (xs ys : List (ℕ × Bytes)) (groups : Assoc ℕ (List Bytes))
    → Interleaves xs ys
    → group_symbols xs groups ≡ group_symbols ys groups
unfolding group_symbols
group_symbols-Interleaves xs ys groups (in_order _) = refl
group_symbols-Interleaves xs ys groups (behind (gen, w) us vs i) =
    group_symbols-Interleaves us vs (push_symbol gen w groups) i
group_symbols-Interleaves xs ys groups (overtakes gen other w v rest different) =
    ap (group_symbols rest) (sym (push_symbol-push_symbol gen other w v groups different))
group_symbols-Interleaves xs ys groups (followed us vs ws i j) =
    group_symbols-Interleaves us vs groups i ∙ group_symbols-Interleaves vs ws groups j

bulk_decode-Interleaves :
    (k size len : ℕ) (coded arrived : List (ℕ × Bytes))
    → Interleaves coded arrived
    → bulk_decode k size arrived len ≡ bulk_decode k size coded len
unfolding bulk_decode
bulk_decode-Interleaves k size len coded arrived i =
    rw (bulk_decode, group_symbols-Interleaves coded arrived [] i)

-- What is sent: nothing when the encoder fails.
abbrev pub sent_of : Option (List (ℕ × Bytes)) → List (ℕ × Bytes)
sent_of none = []
sent_of (some coded) = coded

-- In the arithmetic of 64 bits, a payload that is not empty is encoded without an error, and comes
-- back whole from `decode` with its length, however the symbols of different generations overtake each
-- other on the way, when each generation's own symbols stay in order, `encode` adds no repair symbols
-- and none is lost: for symbols and generations of a size that is not 0, with at most 2 ^ 16 symbols
-- in a generation, 2 ^ 32 generations, and a padded payload of less than 2 ^ 64 bytes.
pub bulk_decode-interleaved :
    (soliton repair : ℕ → ℕ → ℕ) (k size pct : ℕ) (payload : Bytes) (arrived : List (ℕ × Bytes))
    → 1 ≤ length payload
    → 0 < k
    → 0 < size
    → k ≤ 2 ^ 16
    → generations k size payload ≤ 2 ^ 32
    → padded_len k size payload < 2 ^ 64
    → repair k pct ≡ 0
    → Interleaves (sent_of (encode_usize soliton repair k size pct payload)) arrived
    → (encode_usize soliton repair k size pct payload
        ≡ some (sent_of (encode_usize soliton repair k size pct payload)))
      × (bulk_decode k size arrived (length payload) ≡ some (ok payload))
bulk_decode-interleaved soliton repair k size pct payload arrived some_bytes some_k some_size small
      few fits lossless i =
    let (coded, encoded, whole) =
      bulk_decode-encode soliton repair k size pct payload some_bytes some_k some_size small few
        fits lossless in
    let encoded' : encode_usize soliton repair k size pct payload ≡ some coded =
      encode_usize-encode k size payload soliton repair pct some_bytes some_k some_size fits
        (omega (arith, small, lossless))
      ∙ encoded in
    let sent : sent_of (encode_usize soliton repair k size pct payload) ≡ coded =
      ap sent_of encoded' in
    (
      encoded' ∙ ap some (sym sent),
      bulk_decode-Interleaves k size (length payload) _ arrived i
          ∙ ap (λ l. bulk_decode k size l (length payload)) sent
          ∙ whole,
    )
