-- ===== src/Core/Frame/Panics.antt =====
-- Panics of the decoder: `decode_frame_block` reads `r[0]` of the window.
use Prim.Native.Nat.{bit_and}
use dlr.Prelude.{
  ℕ, zero, suc, ◌+◌, ◌≡◌, ◌≢◌, refl, sym, ◌∙◌, arith, List, [], ◌∷◌, ◌++◌, length, take, drop, All,
  Bool, true, false, ltb, ◌==◌, if◌then◌else◌, append_assoc, append-nil, length-take, concat_map,
  Bool-cases, Option-cases, inl, inr, take-append-drop,
}
use dlr.Core.Bytes.{Bytes, from_le}
use dlr.Core.Block.{BlockKind, from_byte, IsU128, IsId}
use dlr.Core.Merkle.{MerkleRoot}
use dlr.Core.Frame.{
  FrameError, FrameBlock, put_u128, put_u32_le, encode_frame_block, IsFrameBlock, IsCount,
  unknown_tag, tag_append, tag_resync, tag_bulk, tag_ack, tag_missing,
}
use dlr.Core.Frame.Reader.{
  Decoded, ok, err, panic, Reader, pure, fail, value, continue, ◌>>=◌, read_n, take_bytes, take_u32,
  take_count, take_u128, take_block_id, take_root,
}
use dlr.Core.Frame.Decode.{decode_body, decode_frame, decode_resync, decode_ack, decode_missing}
use dlr.Core.Frame.Window.{
  IsReader, IsReader-take_u32, IsReader-take_u128, IsReader-take_root, IsReader-take_count,
  IsReader-take_bytes, IsReader-read_n, IsReader-take_block_id,
}
use native.Mathlib.Nat.{zero-add, suc-add}
use dlr.Core.Frame.Entries.{
  take_u128-put_u128, take_root-append, take_count-put_u32_le, copy_frame_block-encode,
}
use dlr.Core.Frame.Copied.{
  copy_ref, copy_inline, copy_entry, copy_frame_block, copy_symbol, copy_append, copy_bulk,
  copy_body, copy_frame_block-IsReader, copy_symbol-IsReader,
}
use dlr.Core.Frame.Copy.{read_body-copy}

-- `f` panics only on inputs with `Q`, a property that bytes in front do not change.
module _ (Q : Bytes → Type 0) (grow : (c r : Bytes) → Q r → Q (c ++ r)) where
  record PanicsOn {ℓ} {A : Type ℓ} (f : Reader A) : Type ℓ where
    at : (r : Bytes) → f r ≡ panic → Q r

  PanicsOn-pure {ℓ} : {A : Type ℓ} (a : A) → PanicsOn (pure a)
  PanicsOn-pure a = record { at = λ r h. absurd (cc) }

  PanicsOn-fail {ℓ} : {A : Type ℓ} (e : FrameError) → PanicsOn (fail {A = A} e)
  PanicsOn-fail e = record { at = λ r h. absurd (cc) }

  PanicsOn-if {ℓ} :
      {A : Type ℓ} (b : Bool) (f g : Reader A)
      → PanicsOn f
      → PanicsOn g
      → PanicsOn (if b then f else g)
  PanicsOn-if true f g hf hg = hf
  PanicsOn-if false f g hf hg = hg

  PanicsOn-take_bytes : (n : ℕ) → PanicsOn (take_bytes n)
  unfolding take_bytes
  PanicsOn-take_bytes n = record { at = λ r h. absurd (ground arith) }

  PanicsOn-bind {ℓ κ} :
      {A : Type ℓ} {B : Type κ} (f : Reader A) (g : A → Reader B)
      → IsReader f
      → PanicsOn f
      → ((a : A) → PanicsOn (g a))
      → PanicsOn (f >>= g)
  PanicsOn-bind {A = A} f g hr hf hg = record { at = λ r h. rest r (f r) refl h }
    where
      rest : (r : Bytes) (d : Decoded (A × Bytes)) → f r ≡ d → continue d g ≡ panic → Q r
      rest r (ok (a, mid)) e h =
          let (c, p) = hr.suffix r a mid e in rw p (grow c mid ((hg a).at mid h))
      rest r (err x) e h = absurd (cc)
      rest r panic e h = hf.at r e

  PanicsOn-read_n {ℓ} :
      {A : Type ℓ} (f : Reader A) (n : ℕ) → IsReader f → PanicsOn f → PanicsOn (read_n f n)
  unfolding read_n
  PanicsOn-read_n f zero hr hf = PanicsOn-pure []
  PanicsOn-read_n f (suc n) hr hf = PanicsOn-bind f _ hr hf λ x.
      PanicsOn-bind (read_n f n) _ (IsReader-read_n f n hr) (PanicsOn-read_n f n hr hf)
        (λ xs. PanicsOn-pure (x ∷ xs))

  PanicsOn-take_u32 : PanicsOn take_u32
  unfolding take_u32
  PanicsOn-take_u32 =
      PanicsOn-bind (take_bytes 4) _ (IsReader-take_bytes 4) (PanicsOn-take_bytes 4)
        (λ v. PanicsOn-pure _)

  PanicsOn-take_u128 : PanicsOn take_u128
  unfolding take_u128
  PanicsOn-take_u128 =
      PanicsOn-bind (take_bytes 16) _ (IsReader-take_bytes 16) (PanicsOn-take_bytes 16)
        (λ v. PanicsOn-pure _)

  PanicsOn-take_block_id : PanicsOn take_block_id
  unfolding take_block_id
  PanicsOn-take_block_id = PanicsOn-take_bytes 32

  PanicsOn-take_root : PanicsOn take_root
  unfolding take_root
  PanicsOn-take_root = PanicsOn-take_block_id

  PanicsOn-take_count : PanicsOn take_count
  unfolding take_count
  PanicsOn-take_count =
      PanicsOn-bind take_u32 _ IsReader-take_u32 PanicsOn-take_u32
        (λ n. PanicsOn-if _ _ _ (PanicsOn-fail _) (PanicsOn-pure n))

  PanicsOn-copy_symbol : PanicsOn copy_symbol
  unfolding copy_symbol
  PanicsOn-copy_symbol =
      PanicsOn-bind take_u32 _ IsReader-take_u32 PanicsOn-take_u32
        (λ n. PanicsOn-if _ _ _ (PanicsOn-fail _) (PanicsOn-take_bytes n))

  ruleset panic_rules = (
    PanicsOn-pure, PanicsOn-fail, PanicsOn-if, PanicsOn-bind, PanicsOn-read_n, PanicsOn-take_u32,
    PanicsOn-take_u128, PanicsOn-take_block_id, PanicsOn-take_root, PanicsOn-take_count,
    PanicsOn-copy_symbol, PanicsOn-take_bytes, IsReader-take_u32, IsReader-take_u128,
    IsReader-take_root, IsReader-take_count, IsReader-read_n, IsReader-take_block_id,
    copy_symbol-IsReader,
  )

  PanicsOn-copy_bulk : PanicsOn copy_bulk
  unfolding copy_bulk
  PanicsOn-copy_bulk = search panic_rules depth 14

  PanicsOn-copy_append : PanicsOn copy_frame_block → PanicsOn copy_append
  unfolding copy_append
  PanicsOn-copy_append h = search (panic_rules, copy_frame_block-IsReader) depth 14

  -- The tags other than APPEND's.
  PanicsOn-others :
      (tag : ℕ)
      → PanicsOn (
          if tag == tag_resync
          then decode_resync
          else if tag == tag_bulk
          then copy_bulk
          else if tag == tag_ack
          then decode_ack
          else if tag == tag_missing
          then decode_missing
          else fail (unknown_tag tag))
  unfolding decode_resync decode_ack decode_missing
  PanicsOn-others tag = search (panic_rules, PanicsOn-copy_bulk) depth 14

  PanicsOn-not_append : (tag : ℕ) → tag ≢ 1 → PanicsOn (copy_body tag)
  unfolding copy_body
  PanicsOn-not_append tag h = elim (Bool-cases (tag == tag_append)) [
    | inl e ↦ absurd (ground arith)
    | inr e ↦ rw e (PanicsOn-others tag)
  ]

  PanicsOn-append : PanicsOn copy_frame_block → PanicsOn (copy_body 1)
  unfolding copy_body
  PanicsOn-append h = PanicsOn-copy_append h

abbrev zero_entry : Bytes
zero_entry = 0 ∷ 0 ∷ 0 ∷ 0 ∷ []

-- The input ends with the length of an empty entry.
abbrev EndsEmpty : Bytes → Type 0
EndsEmpty r = (front : Bytes) × (r ≡ front ++ zero_entry)

EndsEmpty-grow : (c r : Bytes) → EndsEmpty r → EndsEmpty (c ++ r)
EndsEmpty-grow c r (front, e) = (c ++ front, rw (append_assoc, ← e))

from_le-eq-zero : (bs : Bytes) → length bs ≡ 4 → from_le bs ≡ 0 → bs ≡ zero_entry
unfolding from_le
from_le-eq-zero (a ∷ b ∷ c ∷ d ∷ []) h e = ground arith
from_le-eq-zero bs h e = absurd (omega arith)

copy_inline-ne-panic : (len : ℕ) (kind : BlockKind) (r : Bytes) → copy_inline len kind r ≢ panic
unfolding copy_inline
copy_inline-ne-panic len kind r h = ground arith

copy_entry_panic : (len : ℕ) (r : Bytes) → copy_entry len r ≡ panic → r ≡ []
unfolding copy_entry copy_ref
copy_entry_panic len [] h = refl
copy_entry_panic len (m ∷ t) h = elim (Option-cases (from_byte (bit_and m 0x7f))) [
  | inl e ↦ absurd (ground arith)
  | inr (k, e) ↦ absurd (ground (arith, copy_inline-ne-panic len k (m ∷ t)))
]

ends_empty :
    (r : Bytes)
    → drop 4 r ≡ []
    → ltb (length r) 4 ≡ false
    → ltb (length (drop 4 r)) (from_le (take 4 r)) ≡ false
    → EndsEmpty r
ends_empty r e long h =
    let all : take 4 r ≡ r = sym (append-nil (take 4 r)) ∙ rw e at (take-append-drop 4 r) in
    let empty : length (drop 4 r) ≡ 0 = rw e refl in
    let four : length (take 4 r) ≡ 4 = ground (arith, length-take 4 r) in
    ([], rw all at (from_le-eq-zero (take 4 r) four (ground arith)))

copy_frame_block_panics : PanicsOn EndsEmpty EndsEmpty-grow copy_frame_block
unfolding copy_frame_block take_u32 take_bytes
copy_frame_block_panics = record {
  at = λ r h. elim (Bool-cases (ltb (length r) 4)) [
    | inl e ↦ absurd (cc (rw e at h))
    | inr e ↦ elim (Bool-cases (ltb (length (drop 4 r)) (from_le (take 4 r)))) [
      | inl f ↦ absurd (cc (rw f at (rw e at h)))
      | inr f ↦ ends_empty r (copy_entry_panic _ _ (rw f at (rw e at h))) e f
    ]
  ];
}

value-eq-panic : {A : Type 0} (d : Decoded (A × Bytes)) → value d ≡ panic → d ≡ panic
value-eq-panic (ok (a, r)) h = absurd (cc)
value-eq-panic (err e) h = absurd (cc)
value-eq-panic panic h = refl

-- A buffer on which the decoder panics has the APPEND tag and ends with four zero bytes, the
-- length field of an empty entry. On every other buffer the decoder returns.
pub decode_frame_panics_only :
    (buf : Bytes)
    → decode_frame buf ≡ panic
    → (front : Bytes) × (buf ≡ tag_append ∷ (front ++ (0 ∷ 0 ∷ 0 ∷ 0 ∷ [])))
unfolding decode_frame decode_body
decode_frame_panics_only [] h = absurd (cc)
decode_frame_panics_only (tag ∷ body) h =
    let p = value-eq-panic (copy_body tag body) (rw read_body-copy at h) in
    elim (Bool-cases (tag == 1)) [
      | inl e ↦
          let is : tag ≡ 1 = ground arith in
          let (front, q) =
            (PanicsOn-append EndsEmpty EndsEmpty-grow copy_frame_block_panics).at body
              (rw is at p) in
          (front, rw (is, q))
      | inr e ↦
          absurd
            ((PanicsOn-not_append (λ r. ⊥) (λ c r x. x) tag (λ i. absurd (ground arith))).at body p)
    ]

empty_entry_panics : copy_frame_block zero_entry ≡ panic
unfolding copy_frame_block take_u32 take_bytes from_le copy_entry
empty_entry_panics = refl

read_n_panics :
    (xs : List FrameBlock) (n : ℕ)
    → All IsFrameBlock xs
    → read_n copy_frame_block (length xs + suc n) (concat_map encode_frame_block xs ++ zero_entry)
      ≡ panic
unfolding read_n concat_map
read_n_panics [] n h = rw (zero-add, empty_entry_panics)
read_n_panics (x ∷ xs) n h =
    rw (suc-add, append_assoc, copy_frame_block-encode x _ h.0, read_n_panics xs n h.1)

-- An APPEND frame whose last entry claims zero bytes makes the decoder panic instead of returning
-- an error, whatever session, root and valid entries come before it.
pub decode_frame_empty_entry :
    (session_id : ℕ) (base_root : MerkleRoot) (xs : List FrameBlock) (n : ℕ)
    → IsU128 session_id
    → IsId base_root
    → All IsFrameBlock xs
    → IsCount (length xs + suc n)
    → decode_frame (
        tag_append
        ∷ (put_u128 session_id
            ++ (base_root
                ++ (put_u32_le (length xs + suc n)
                    ++ (concat_map encode_frame_block xs ++ (0 ∷ 0 ∷ 0 ∷ 0 ∷ []))))))
      ≡ panic
unfolding decode_frame decode_body copy_body copy_append
decode_frame_empty_entry session_id base_root xs n hs hr hx hn = rw (
  read_body-copy,
  take_u128-put_u128 session_id _ hs,
  take_root-append base_root _ hr,
  take_count-put_u32_le (length xs + suc n) _ hn,
  read_n_panics xs n hx,
)
