-- ===== src/Core/Frame/Copy.antt =====
-- The zero-copy decoder and the copying one.
use dlr.Prelude.{
  ℕ, zero, suc, ◌+◌, ◌-◌, ◌≡◌, refl, arith, [], ◌∷◌, ◌++◌, length, take, drop, ltb, append_assoc,
  length-append, drop-append_len, drop-drop, Bool-cases, inl, inr,
}
use native.Mathlib.Nat.{add-zero}
use dlr.Core.Bytes.{Bytes, from_le, slice}
use dlr.Core.Frame.{max_inline_payload_bytes}
use dlr.Core.Frame.Reader.{
  Decoded, ok, err, panic, Reader, continue, ◌>>=◌, read_n, take_bytes, take_u32, take_count,
  take_u128, take_root,
}
use dlr.Core.Frame.Decode.{
  decode_entry, decode_frame_block, decode_symbol, decode_append, decode_bulk, read_body,
}
use dlr.Core.Frame.Window.{
  IsReader, IsReader-read_n, IsReader-take_u32, IsReader-take_u128, IsReader-take_root,
  IsReader-take_count,
}
use dlr.Core.Frame.Copied.{
  copy_entry, copy_frame_block, copy_symbol, copy_append, copy_bulk, copy_body,
  copy_frame_block-IsReader, copy_symbol-IsReader,
}

-- At a window of the transport buffer a slice is the window's own bytes.
slice_window :
    (pre r : Bytes) (i n : ℕ)
    → slice (length (pre ++ r) - length r + i) (length (pre ++ r) - length r + i + n) (pre ++ r)
      ≡ take n (drop i r)
slice_window pre r i n =
    let off : length (pre ++ r) - length r ≡ length pre = omega (arith, length-append pre r) in
    let width : length pre + i + n - (length pre + i) ≡ n = omega arith in
    rw (off, width, ← drop-drop i (length pre) (pre ++ r), drop-append_len (length pre) pre r refl)

slice_here :
    (pre r : Bytes) (n : ℕ)
    → slice (length (pre ++ r) - length r) (length (pre ++ r) - length r + n) (pre ++ r) ≡ take n r
slice_here pre r n = rw add-zero at (slice_window pre r 0 n)

decode_entry-copy : (pre r : Bytes) (len : ℕ) → decode_entry (pre ++ r) len r ≡ copy_entry len r
unfolding decode_entry copy_entry
decode_entry-copy pre [] len = refl
decode_entry-copy pre (marker ∷ t) len =
    let plen = from_le (take 8 (drop 8 t)) in
    let regroup : length (pre ++ marker ∷ t) - suc (length t) + 1 + 16
        ≡ length (pre ++ marker ∷ t) - suc (length t) + 17 =
      omega arith in
    ground (arith, regroup, slice_window pre (marker ∷ t) 17 plen)

-- A reader that slices `body` agrees with a copying one at every window of `body`.
record Agrees {ℓ} {A : Type ℓ} (f : Bytes → Reader A) (g : Reader A) : Type ℓ where
  at : (pre r : Bytes) → f (pre ++ r) r ≡ g r

Agrees-const {ℓ} : {A : Type ℓ} (g : Reader A) → Agrees (λ body. g) g
Agrees-const g = record { at = λ pre r. refl }

module _ {ℓ κ} {A : Type ℓ} {B : Type κ} where
  Agrees-bind :
      (f : Bytes → Reader A) (g : Reader A) (k : A → Bytes → Reader B) (l : A → Reader B)
      → Agrees f g
      → IsReader g
      → ((a : A) → Agrees (k a) (l a))
      → Agrees (λ body. f body >>= λ a. k a body) (g >>= l)
  Agrees-bind f g k l hf hg hk = record { at = λ pre r. rw hf.at (rest pre r (g r) refl) }
    where
      rest :
          (pre r : Bytes) (d : Decoded (A × Bytes))
          → g r ≡ d
          → continue d (λ a. k a (pre ++ r)) ≡ continue d l
      rest pre r (err e) h = refl
      rest pre r panic h = refl
      rest pre r (ok (a, mid)) h =
          let (c, p) = hg.suffix r a mid h in
          let whole : pre ++ r ≡ (pre ++ c) ++ mid = rw (append_assoc, ← p) in
          rw whole ((hk a).at (pre ++ c) mid)

Agrees-read_n {ℓ} :
    {A : Type ℓ} (f : Bytes → Reader A) (g : Reader A) (n : ℕ)
    → Agrees f g
    → IsReader g
    → Agrees (λ body. read_n (f body) n) (read_n g n)
unfolding read_n
Agrees-read_n f g zero hf hg = Agrees-const _
Agrees-read_n f g (suc n) hf hg = Agrees-bind f g _ _ hf hg (λ x.
    Agrees-bind (λ body. read_n (f body) n) (read_n g n) _ _ (Agrees-read_n f g n hf hg)
      (IsReader-read_n g n hg) (λ xs. Agrees-const _))

decode_frame_block-Agrees : Agrees decode_frame_block copy_frame_block
unfolding decode_frame_block copy_frame_block
decode_frame_block-Agrees =
    Agrees-bind (λ body. take_u32) take_u32 _ _ (Agrees-const take_u32) IsReader-take_u32
      (λ len. record { at = λ pre r. rw decode_entry-copy })

decode_symbol-Agrees : Agrees decode_symbol copy_symbol
unfolding decode_symbol copy_symbol take_bytes
decode_symbol-Agrees =
    Agrees-bind (λ body. take_u32) take_u32 _ _ (Agrees-const take_u32) IsReader-take_u32
      (λ len. record {
        at = λ pre r. elim (Bool-cases (ltb max_inline_payload_bytes len)) [
          | inl e ↦ rw e
          | inr e ↦ rw e (rw slice_here)
        ];
      })

-- Reading fields that are copied anyway, then a part that is sliced.
Agrees-take :
    {A B : Type 0} (f : Reader A) (k : A → Bytes → Reader B) (l : A → Reader B)
    → IsReader f
    → ((a : A) → Agrees (k a) (l a))
    → Agrees (λ body. f >>= λ a. k a body) (f >>= l)
Agrees-take f k l hf hk = Agrees-bind (λ body. f) f k l (Agrees-const f) hf hk

copy_append-Agrees : Agrees decode_append copy_append
unfolding decode_append copy_append
copy_append-Agrees = Agrees-take take_u128 _ _ IsReader-take_u128 λ session_id.
    Agrees-take take_root _ _ IsReader-take_root λ base_root.
      Agrees-take take_count _ _ IsReader-take_count λ n.
        Agrees-bind (λ body. read_n (decode_frame_block body) n) (read_n copy_frame_block n) _ _
          (Agrees-read_n _ _ n decode_frame_block-Agrees copy_frame_block-IsReader)
          (IsReader-read_n _ n copy_frame_block-IsReader) (λ blocks. Agrees-const _)

copy_bulk-Agrees : Agrees decode_bulk copy_bulk
unfolding decode_bulk copy_bulk
copy_bulk-Agrees = Agrees-take take_u128 _ _ IsReader-take_u128 λ session_id.
    Agrees-take take_u32 _ _ IsReader-take_u32 λ generation.
      Agrees-take take_u32 _ _ IsReader-take_u32 λ k.
        Agrees-take take_u32 _ _ IsReader-take_u32 λ symbol_size.
          Agrees-take take_count _ _ IsReader-take_count λ n.
            Agrees-bind (λ body. read_n (decode_symbol body) n) (read_n copy_symbol n) _ _
              (Agrees-read_n _ _ n decode_symbol-Agrees copy_symbol-IsReader)
              (IsReader-read_n _ n copy_symbol-IsReader) (λ symbols. Agrees-const _)

-- The zero-copy decoder gives what the copying one gives, on every tag and buffer, errors and
-- panics included.
pub read_body-copy : (tag : ℕ) (body : Bytes) → read_body tag body body ≡ copy_body tag body
unfolding read_body copy_body
read_body-copy tag body = ground (arith, copy_append-Agrees.at [] body, copy_bulk-Agrees.at [] body)
