-- ===== src/Coding/Bulk/Reassembly.antt =====
-- crates/coding/src/bulk.rs: `decode`. The map of the groups and its sorting are one list in the order
-- of the ids; generations are decoded one after the other, so that of several errors the first is
-- returned. The size of a generation wraps at 2 ^ 64, as in a build without overflow checks.
use dlr.Prelude.{
  ℕ, ◌-◌, ◌*◌, ◌%◌, ◌^◌, Option, none, some, List, [], ◌∷◌, ◌++◌, length, take, min, ltb, ◌==◌,
  ◌||◌, if◌then◌else◌,
}
use dlr.Prelude.Results.{Result, ok, err}
use dlr.Prelude.Assoc.{Assoc}
use dlr.Core.Bytes.{Bytes}
use dlr.Core.Merkle.{replicate}
use dlr.Coding.Fountain.{FountainError, new_decoder, decode}
use dlr.Coding.Fountain.Systematic.{add_all}

pub data BulkError : Type 0 where
  empty : BulkError
  generation : ℕ → FountainError → BulkError
  size_mismatch : ℕ → ℕ → BulkError

unfoldable pub push_symbol : ℕ → Bytes → Assoc ℕ (List Bytes) → Assoc ℕ (List Bytes)
push_symbol gen w [] = (gen, w ∷ []) ∷ []
push_symbol gen w ((g, ws) ∷ groups) =
    let rest = push_symbol gen w groups in
    if gen == g
    then (g, ws ++ (w ∷ [])) ∷ groups
    else if ltb gen g
    then (gen, w ∷ []) ∷ (g, ws) ∷ groups
    else (g, ws) ∷ rest

unfoldable pub group_symbols : List (ℕ × Bytes) → Assoc ℕ (List Bytes) → Assoc ℕ (List Bytes)
group_symbols [] groups = groups
group_symbols ((gen, w) ∷ coded) groups = group_symbols coded (push_symbol gen w groups)

-- The symbols copied into a region of zeros, with so much room left.
unfoldable pub fill_region : ℕ → List Bytes → Bytes
fill_region room [] = replicate room 0
fill_region room (sym ∷ syms) =
    let n = min (length sym) room in take n sym ++ fill_region (room - n) syms

-- The regions, each of `full` bytes.
unfoldable pub decode_groups : ℕ → ℕ → ℕ → Assoc ℕ (List Bytes) → Result BulkError Bytes
decode_groups full gen_size symbol_size [] = ok []
decode_groups full gen_size symbol_size ((gen, wires) ∷ groups) =
    elim (decode (add_all wires (new_decoder gen_size symbol_size))).1 [
      | err e ↦ err (generation gen e)
      | ok syms ↦ elim (decode_groups full gen_size symbol_size groups) [
        | err e ↦ err e
        | ok rest ↦ ok (fill_region full syms ++ rest)
      ]
    ]

-- None is the panic of `checked_mul` for a length that is not a `usize`.
unfoldable pub bulk_decode : ℕ → ℕ → List (ℕ × Bytes) → ℕ → Option (Result BulkError Bytes)
bulk_decode gen_size symbol_size coded original_len =
    let groups = group_symbols coded [] in
    let full = gen_size * symbol_size % 2 ^ 64 in
    let decoded = decode_groups full gen_size symbol_size groups in
    let out = elim decoded as (λ r. Result BulkError Bytes) [
      | err e ↦ err e
      | ok bytes ↦ ok (take original_len bytes)
    ] in
    if (length groups == 0) || (full == 0)
    then some (ok [])
    else if ltb (length groups * full) (2 ^ 64)
    then some out
    else none
