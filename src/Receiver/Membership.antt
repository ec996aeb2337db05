-- ===== src/Receiver/Membership.antt =====
-- Sets of block ids, and which of them a store holds.
use dlr.Prelude.{
  ℕ, ◌≡◌, refl, arith, List, [], ◌∷◌, ◌++◌, Option, none, true, false, if◌then◌else◌, bytes_eq,
  bytes_eq_iff, bytes_key, Bool-cases, inl, inr, ◌⊎◌, nat_eq,
}
use dlr.Prelude.Assoc.{Assoc, lookup, lookup-insert}
use dlr.Core.Bytes.{Bytes}
use dlr.Core.Blake3.{Blake3}
use dlr.Core.Block.{Block, BlockId}
use dlr.Core.Wal.{Disk}
use dlr.Core.Store.{
  ContentStore, is_some, contains, insert_with_id, insert_with_canonical, reference, seed_session,
  store_content_with_id,
}
use dlr.Core.Store.View.{
  put_block, blocks-insert, blocks-reference, blocks-seed_session, blocks-store_content,
}
use dlr.Receiver.{mem, without, missing_ids, is_empty}

is_some-put_block :
    (id j : BlockId) (b : Block) (blocks : Assoc BlockId Block)
    → is_some (lookup j (put_block id b blocks))
      ≡ (if bytes_eq id j then true else is_some (lookup j blocks))
unfolding put_block
is_some-put_block id j b blocks = ground (arith, bytes_eq_iff id j, lookup-insert id j b blocks)

module _ (blake3 : Blake3) (disk : Disk) (sid : ℕ) (b : Block) (id j : BlockId)
    (s : ContentStore) where
  pub contains-insert_with_canonical :
      (c : Option Bytes)
      → contains (insert_with_canonical blake3 disk sid b id c s).0 j
        ≡ (if bytes_eq id j then true else contains s j)
  unfolding contains
  contains-insert_with_canonical c = rw blocks-insert (is_some-put_block id j b s.blocks)

  pub contains-insert :
      contains (insert_with_id blake3 disk sid b id s).0 j
      ≡ (if bytes_eq id j then true else contains s j)
  unfolding insert_with_id
  contains-insert = contains-insert_with_canonical none

  pub contains-store_content :
      contains (store_content_with_id blake3 disk sid b id s).0 j
      ≡ (if bytes_eq id j then true else contains s j)
  unfolding contains
  contains-store_content = rw blocks-store_content (is_some-put_block id j b s.blocks)

module _ (blake3 : Blake3) (disk : Disk) (sid : ℕ) (s : ContentStore) (j : BlockId) where
  pub contains-reference :
      (id : BlockId) → contains (reference blake3 disk sid id s).0 j ≡ contains s j
  unfolding contains
  contains-reference id = rw blocks-reference

  pub contains-seed_session :
      (ids : List BlockId) (root : Bytes)
      → contains (seed_session blake3 disk sid ids root s) j ≡ contains s j
  unfolding contains
  contains-seed_session ids root = rw blocks-seed_session

pub mem-without :
    (id j : BlockId) (xs : List BlockId)
    → mem j (without id xs) ≡ (if bytes_eq id j then false else mem j xs)
unfolding mem without
mem-without id j [] = ground arith
mem-without id j (x ∷ xs) =
    ground (arith, bytes_eq_iff id j, bytes_eq_iff id x, bytes_eq_iff x j, mem-without id j xs)

-- An id of the list is stored, or named as missing.
pub mem-missing_ids :
    (s : ContentStore) (ids : List BlockId) (id : BlockId)
    → mem id ids ≡ true
    → (contains s id ≡ true) ⊎ (mem id (missing_ids s ids) ≡ true)
unfolding mem missing_ids
mem-missing_ids s [] id h = absurd (cc)
mem-missing_ids s (x ∷ ids) id h = elim (Bool-cases (contains s id)) [
  | inl e ↦ inl e
  | inr e ↦ inr (elim (Bool-cases (bytes_eq x id)) [
    | inl same ↦ ground (arith, bytes_eq_iff x id, same, e)
    | inr other ↦ elim (mem-missing_ids s ids id (rw other at h)) [
      | inl c ↦ absurd (ground (arith, c, e))
      | inr m ↦ ground (arith, m, other)
    ]
  ])
]

-- What is named as missing is not stored.
pub missing_ids-absent :
    (s : ContentStore) (ids : List BlockId) (id : BlockId)
    → mem id (missing_ids s ids) ≡ true
    → contains s id ≡ false
unfolding mem missing_ids
missing_ids-absent s [] id h = absurd (cc)
missing_ids-absent s (x ∷ ids) id h = elim (Bool-cases (contains s x)) [
  | inl e ↦ missing_ids-absent s ids id (rw e at h)
  | inr e ↦ elim (Bool-cases (bytes_eq x id)) [
    | inl same ↦ ground (arith, bytes_eq_iff x id, same, e)
    | inr other ↦ missing_ids-absent s ids id (ground (arith, h, e, other))
  ]
]

pub mem-append :
    (id : BlockId) (xs ys : List BlockId)
    → mem id (xs ++ ys) ≡ (if mem id xs then true else mem id ys)
unfolding mem
mem-append id [] ys = refl
mem-append id (x ∷ xs) ys = ground (arith, mem-append id xs ys)

pub is_empty-mem : (id : BlockId) (xs : List BlockId) → is_empty xs ≡ true → mem id xs ≡ false
unfolding mem
is_empty-mem id [] h = refl
is_empty-mem id (x ∷ xs) h = absurd (cc)
