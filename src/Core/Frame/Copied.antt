-- ===== src/Core/Frame/Copied.antt =====
-- A decoder that copies payloads out of the window: the reference for the zero-copy one of Decode.
use Prim.Native.Nat.{bit_and}
use dlr.Prelude.{
  ℕ, ◌+◌, ◌≤◌, ◌≡◌, sym, ◌∙◌, arith, [], ◌∷◌, ◌++◌, length, take, drop, none, some, true, false,
  not, ltb, ◌==◌, if◌then◌else◌, length-append, length-drop, take-append-drop, take-append_le,
  drop-append_le, Option-cases, Bool-cases, inl, inr,
}
use dlr.Core.Bytes.{Bytes, from_le, slice}
use dlr.Core.Block.{BlockKind, from_byte}
use dlr.Core.Frame.{
  FrameError, truncated, unknown_tag, unknown_kind, too_large, FrameBlock, inline, ref, Frame,
  append, bulk, tag_append, tag_resync, tag_bulk, tag_ack, tag_missing, ref_bit,
  max_inline_payload_bytes,
}
use dlr.Core.Frame.Reader.{
  Decoded, ok, err, panic, Reader, pure, fail, ◌>>=◌, read_n, take_bytes, take_u32, take_count,
  take_u128, take_root,
}
use dlr.Core.Frame.Decode.{kind_of, decode_resync, decode_ack, decode_missing}
use dlr.Core.Frame.Window.{
  IsReader, reader_rules, IsReader-bind, IsReader-if, IsReader-fail, IsReader-take_bytes,
  IsReader-take_u32,
}

-- An inline entry of `len` bytes that begins with a kind.
unfoldable pub copy_inline : ℕ → BlockKind → Reader FrameBlock
copy_inline len kind r =
    if ltb len (1 + 16)
    then err truncated
    else (let plen = from_le (slice 9 17 r) in
        if ltb max_inline_payload_bytes plen
        then err (too_large plen)
        else if ltb len (1 + 16 + plen)
        then err truncated
        else ok (
          inline (record {
            kind = kind;
            seq = from_le (slice 1 9 r);
            payload = take plen (drop 17 r);
          }),
          drop (1 + 16 + plen) r,
        ))

unfoldable pub copy_ref : ℕ → Reader FrameBlock
copy_ref len r = if not (len == 33) then err truncated else ok (ref (slice 1 33 r), drop len r)

unfoldable pub copy_entry : ℕ → Reader FrameBlock
unfolding copy_inline copy_ref
copy_entry len [] = panic
copy_entry len (marker ∷ t) =
    if not (bit_and marker ref_bit == 0)
    then copy_ref len (marker ∷ t)
    else kind_of marker λ kind. copy_inline len kind (marker ∷ t)

unfoldable pub copy_frame_block : Reader FrameBlock
copy_frame_block = do
  len ← take_u32
  λ r. if ltb (length r) len then err truncated else copy_entry len r

unfoldable pub copy_symbol : Reader Bytes
copy_symbol = do
  len ← take_u32
  if ltb max_inline_payload_bytes len then fail (too_large len) else take_bytes len

unfoldable pub copy_append : Reader Frame
copy_append = do
  session_id ← take_u128
  base_root ← take_root
  n ← take_count
  blocks ← read_n copy_frame_block n
  pure (append (record { session_id = session_id; base_root = base_root; blocks = blocks }))

unfoldable pub copy_bulk : Reader Frame
copy_bulk = do
  session_id ← take_u128
  generation ← take_u32
  k ← take_u32
  symbol_size ← take_u32
  n ← take_count
  symbols ← read_n copy_symbol n
  pure (
      bulk (record {
        session_id = session_id;
        generation = generation;
        k = k;
        symbol_size = symbol_size;
        symbols = symbols;
      }))

unfoldable pub copy_body : ℕ → Reader Frame
copy_body tag =
    if tag == tag_append
    then copy_append
    else if tag == tag_resync
    then decode_resync
    else if tag == tag_bulk
    then copy_bulk
    else if tag == tag_ack
    then decode_ack
    else if tag == tag_missing
    then decode_missing
    else fail (unknown_tag tag)

slice-append_le :
    (i n : ℕ) (r more : Bytes) → i + n ≤ length r → take n (drop i (r ++ more)) ≡ take n (drop i r)
slice-append_le i n r more fits =
    rw (drop-append_le i r more (omega arith))
      (take-append_le n (drop i r) more (omega (arith, length-drop i r)))

-- An entry that lies inside the window is read without looking past it.
record Within (f : Reader FrameBlock) (r : Bytes) : Type 0 where
  split : (a : FrameBlock) (rest : Bytes) → f r ≡ ok (a, rest) → (c : Bytes) × (r ≡ c ++ rest)
  further :
      (more : Bytes) (a : FrameBlock) (rest : Bytes)
      → f r ≡ ok (a, rest)
      → f (r ++ more) ≡ ok (a, rest ++ more)

copy_inline-Within :
    (len : ℕ) (kind : BlockKind) (r : Bytes) → len ≤ length r → Within (copy_inline len kind) r
unfolding copy_inline
copy_inline-Within len kind r fits =
    let plen = from_le (take 8 (drop 9 r)) in
    record {
      split = λ a rest h. (take (17 + plen) r, ground (arith, take-append-drop (17 + plen) r));
      further = λ more a rest h. ground (
        arith,
        slice-append_le 1 8 r more,
        slice-append_le 9 8 r more,
        slice-append_le 17 plen r more,
        drop-append_le (17 + plen) r more,
      );
    }

ok_pair_eq :
    {A : Type 0} (a b : A) (x y : Bytes)
    → ◌≡◌ {A = Decoded (A × Bytes)} (ok (a, x)) (ok (b, y))
    → (a ≡ b) × (x ≡ y)
ok_pair_eq a b x y h = (cc, cc)

copy_ref-Within : (len : ℕ) (r : Bytes) → len ≤ length r → Within (copy_ref len) r
unfolding copy_ref
copy_ref-Within len r fits = elim (Bool-cases (not (len == 33))) [
  | inl e ↦ record {
    split = λ a rest h. absurd (cc (rw e at h));
    further = λ more a rest h. absurd (cc (rw e at h));
  }
  | inr e ↦
      let inside : 1 + 32 ≤ length r = ground arith in
      record {
        split = λ a rest h.
            let (p, q) = ok_pair_eq _ a _ rest (rw e at h) in
            (take len r, rw (← q) (sym (take-append-drop len r)));
        further = λ more a rest h.
            let (p, q) = ok_pair_eq _ a _ rest (rw e at h) in
            rw (e, drop-append_le len r more fits, slice-append_le 1 32 r more inside) (cc (p, q));
      }
]

module _ (len marker : ℕ) (t : Bytes) where
  pub copy_entry_ref :
      not (bit_and marker ref_bit == 0) ≡ true
      → copy_entry len (marker ∷ t) ≡ copy_ref len (marker ∷ t)
  unfolding copy_entry
  copy_entry_ref e = rw e

  pub copy_entry_inline :
      (kind : BlockKind)
      → not (bit_and marker ref_bit == 0) ≡ false
      → from_byte (bit_and marker 0x7f) ≡ some kind
      → copy_entry len (marker ∷ t) ≡ copy_inline len kind (marker ∷ t)
  unfolding copy_entry
  copy_entry_inline kind e k = rw e (rw (k, kind_of))

  pub copy_entry_unknown :
      not (bit_and marker ref_bit == 0) ≡ false
      → from_byte (bit_and marker 0x7f) ≡ none
      → copy_entry len (marker ∷ t) ≡ err (unknown_kind marker)
  unfolding copy_entry
  copy_entry_unknown e k = rw e (rw (k, kind_of))

Within-eq :
    (f g : Reader FrameBlock) (r : Bytes)
    → f r ≡ g r
    → ((more : Bytes) → f (r ++ more) ≡ g (r ++ more))
    → Within g r
    → Within f r
Within-eq f g r e es w = record {
  split = λ a rest h. w.split a rest (sym e ∙ h);
  further = λ more a rest h. es more ∙ w.further more a rest (sym e ∙ h);
}

Within-err : (f : Reader FrameBlock) (r : Bytes) (e : FrameError) → f r ≡ err e → Within f r
Within-err f r e p = record {
  split = λ a rest h. absurd (cc);
  further = λ more a rest h. absurd (cc);
}

copy_entry-Within : (len : ℕ) (r : Bytes) → len ≤ length r → Within (copy_entry len) r
copy_entry-Within len [] fits =
    unfold copy_entry in
    record { split = λ a rest h. absurd (cc); further = λ more a rest h. absurd (cc) }
copy_entry-Within len (marker ∷ t) fits = elim (Bool-cases (not (bit_and marker ref_bit == 0))) [
  | inl e ↦
      Within-eq (copy_entry len) (copy_ref len) _ (copy_entry_ref len marker t e)
        (λ more. copy_entry_ref len marker (t ++ more) e) (copy_ref-Within len _ fits)
  | inr e ↦ elim (Option-cases (from_byte (bit_and marker 0x7f))) [
    | inl k ↦ Within-err _ _ (unknown_kind marker) (copy_entry_unknown len marker t e k)
    | inr (kind, k) ↦
        Within-eq (copy_entry len) (copy_inline len kind) _
          (copy_entry_inline len marker t kind e k)
          (λ more. copy_entry_inline len marker (t ++ more) kind e k)
          (copy_inline-Within len kind _ fits)
  ]
]

copy_rest-IsReader :
    (len : ℕ) → IsReader (λ r. if ltb (length r) len then err truncated else copy_entry len r)
copy_rest-IsReader len = record {
  suffix = λ r a rest h. elim (Bool-cases (ltb (length r) len)) [
    | inl e ↦ absurd (cc (rw e at h))
    | inr e ↦ (copy_entry-Within len r (ground arith)).split a rest (rw e at h)
  ];
  extend = λ r more a rest h. elim (Bool-cases (ltb (length r) len)) [
    | inl e ↦ absurd (cc (rw e at h))
    | inr e ↦
        let e' : ltb (length (r ++ more)) len ≡ false = ground (arith, length-append r more) in
        rw e' ((copy_entry-Within len r (ground arith)).further more a rest (rw e at h))
  ];
}

pub copy_frame_block-IsReader : IsReader copy_frame_block
unfolding copy_frame_block
copy_frame_block-IsReader =
    IsReader-bind take_u32 _ IsReader-take_u32 (λ len. copy_rest-IsReader len)

pub copy_symbol-IsReader : IsReader copy_symbol
unfolding copy_symbol
copy_symbol-IsReader =
    IsReader-bind take_u32 _ IsReader-take_u32
      (λ len. IsReader-if _ _ _ (IsReader-fail _) (IsReader-take_bytes len))

ruleset copy_rules = (reader_rules, copy_frame_block-IsReader, copy_symbol-IsReader)

pub copy_append-IsReader : IsReader copy_append
unfolding copy_append
copy_append-IsReader = search copy_rules depth 12

pub copy_bulk-IsReader : IsReader copy_bulk
unfolding copy_bulk
copy_bulk-IsReader = search copy_rules depth 14

pub copy_body-IsReader : (tag : ℕ) → IsReader (copy_body tag)
unfolding copy_body decode_resync decode_ack decode_missing
copy_body-IsReader tag = search (copy_rules, copy_append-IsReader, copy_bulk-IsReader) depth 14
