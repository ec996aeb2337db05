-- ===== src/Core/Canonical/Inverse.antt =====
-- The canonical parser read backwards: an accepted buffer begins with the encoding of the block.
use dlr.Prelude.{
  ℕ, ◌+◌, ◌-◌, ◌^◌, ◌≤◌, ◌<◌, ◌≡◌, refl, sym, ap, arith, [], ◌∷◌, ◌++◌, length, take, drop, some,
  append_assoc, length-take, length-drop, take-append-drop, drop-drop, take-add, inl, inr,
  Option-cases,
}
use dlr.Prelude.Results.{ok, map_ok}
use dlr.Core.Bytes.{
  Bytes, IsBytes, to_le, from_le, slice, to_le-from_le, from_le-lt, take-IsBytes, drop-IsBytes,
}
use dlr.Core.Blake3.{Blake3}
use dlr.Core.Block.{
  Block, BlockKind, from_byte, to_byte_from, block_id, block_id_from_canonical, header,
}
use dlr.Core.Canonical.{
  byte_at, max_block_payload_bytes, canonical_bytes, from_canonical, canonical_bytes_and_id,
  from_canonical_owned,
}
use dlr.Core.Canonical.Laws.{IsBlock, canonical_bytes-header}

-- A buffer with a header's length is the two integers after its first byte, and the rest.
split_header :
    (k : ℕ) (t : Bytes) → k ∷ t ≡ k ∷ (slice 1 9 (k ∷ t) ++ (slice 9 17 (k ∷ t) ++ drop 17 (k ∷ t)))
split_header k t =
    let rest : drop 8 (drop 8 t) ≡ drop 16 t = drop-drop 8 8 t in
    ap (λ (l : Bytes). k ∷ l) (rw (← rest, take-append-drop 8 (drop 8 t), take-append-drop 8 t))

to_le-slice :
    (i : ℕ) (buf : Bytes)
    → IsBytes buf
    → i + 8 ≤ length buf
    → to_le 8 (from_le (slice i (i + 8) buf)) ≡ slice i (i + 8) buf
to_le-slice i buf h fits =
    let width : i + 8 - i ≡ 8 = omega arith in
    let eight : length (take 8 (drop i buf)) ≡ 8 =
      omega (arith, length-take 8 (drop i buf), length-drop i buf) in
    rw width
      (rw eight at (to_le-from_le (take 8 (drop i buf)) (take-IsBytes 8 _ (drop-IsBytes i buf h))))

-- What the parser reads from the first 17 bytes, packed again, is those bytes.
pub header_read :
    (buf : Bytes) (kind : BlockKind) (payload : Bytes)
    → IsBytes buf
    → 17 ≤ length buf
    → from_byte (byte_at buf 0) ≡ some kind
    → length payload ≡ from_le (slice 9 17 buf)
    → header (record { kind = kind; seq = from_le (slice 1 9 buf); payload = payload })
      ≡ slice 0 17 buf
unfolding header
header_read [] kind payload h n e l = absurd (omega arith)
header_read (k ∷ t) kind payload h n e l =
    rw
      (
        to_byte_from k kind e,
        l,
        to_le-slice 1 (k ∷ t) h (omega arith),
        to_le-slice 9 (k ∷ t) h (omega arith),
      )
      (ap (λ (r : Bytes). k ∷ r) (take-add 8 8 t))

-- The block that an accepted buffer stands for, by the parser's tests.
abbrev read_block : Bytes → BlockKind → Block
read_block buf kind = record {
  kind = kind;
  seq = from_le (slice 1 9 buf);
  payload = slice 17 (17 + from_le (slice 9 17 buf)) buf;
}

record Accepted (buf : Bytes) (b : Block) : Type 0 where
  kind : BlockKind
  known : from_byte (byte_at buf 0) ≡ some kind
  size : from_le (slice 9 17 buf) ≤ 2 ^ 30
  fits : 17 + from_le (slice 9 17 buf) ≤ length buf
  same : b ≡ read_block buf kind

accepted : (buf : Bytes) (b : Block) → from_canonical buf ≡ ok b → Accepted buf b
unfolding from_canonical max_block_payload_bytes
accepted buf b h = elim (Option-cases (from_byte (byte_at buf 0))) [
  | inl e ↦ absurd (ground arith)
  | inr (kind, e) ↦ record {
    kind = kind;
    known = e;
    size = ground arith;
    fits = ground arith;
    same = ground arith;
  }
]

length-payload : (buf : Bytes) (n : ℕ) → 17 + n ≤ length buf → length (slice 17 (17 + n) buf) ≡ n
length-payload buf n fits =
    let width : 17 + n - 17 ≡ n = omega arith in
    rw width (omega (arith, length-take n (drop 17 buf), length-drop 17 buf))

read_block-IsBlock :
    (buf : Bytes) (kind : BlockKind)
    → IsBytes buf
    → from_le (slice 9 17 buf) ≤ 2 ^ 30
    → 17 + from_le (slice 9 17 buf) ≤ length buf
    → IsBlock (read_block buf kind)
read_block-IsBlock buf kind h size fits =
    let eight : length (slice 1 9 buf) ≡ 8 =
      omega (arith, length-take 8 (drop 1 buf), length-drop 1 buf) in
    let seq : from_le (slice 1 9 buf) < 256 ^ 8 =
      rw eight at (from_le-lt (slice 1 9 buf) (take-IsBytes 8 _ (drop-IsBytes 1 buf h))) in
    record {
      seq = omega (arith, seq);
      bytes = take-IsBytes _ _ (drop-IsBytes 17 buf h);
      size = omega (arith, length-payload buf _ fits);
    }

read_block-split :
    (buf : Bytes) (kind : BlockKind)
    → IsBytes buf
    → from_byte (byte_at buf 0) ≡ some kind
    → 17 + from_le (slice 9 17 buf) ≤ length buf
    → buf
      ≡ canonical_bytes (read_block buf kind)
        ++ drop (17 + length (slice 17 (17 + from_le (slice 9 17 buf)) buf)) buf
read_block-split buf kind h e fits =
    let n = from_le (slice 9 17 buf) in
    let size = length-payload buf n fits in
    let width : 17 + n - 17 ≡ n = omega arith in
    rw (
      canonical_bytes-header,
      header_read buf kind (slice 17 (17 + n) buf) h (omega arith) e size,
      size,
      width,
      append_assoc,
      ← drop-drop n 17 buf,
      take-append-drop n (drop 17 buf),
      take-append-drop 17 buf,
    )

-- An accepted buffer begins with the canonical bytes of the block that is returned, and the block
-- is well formed: no two different encodings are accepted for one block.
pub from_canonical_inverse :
    (buf : Bytes) (b : Block)
    → IsBytes buf
    → from_canonical buf ≡ ok b
    → IsBlock b × (buf ≡ canonical_bytes b ++ drop (17 + length b.payload) buf)
from_canonical_inverse buf b h e =
    let a = accepted buf b e in
    rw a.same
      (read_block-IsBlock buf a.kind h a.size a.fits, read_block-split buf a.kind h a.known a.fits)

-- The owned parser accepts the same buffers with the same errors, and the id that it hashes while
-- it parses is the block's.
pub from_canonical_owned_lem :
    (blake3 : Blake3) (buf : Bytes)
    → IsBytes buf
    → from_canonical_owned blake3 buf ≡ map_ok (λ b. (b, block_id blake3 b)) (from_canonical buf)
unfolding from_canonical_owned from_canonical max_block_payload_bytes block_id
from_canonical_owned_lem blake3 buf h = elim (Option-cases (from_byte (byte_at buf 0))) [
  | inl e ↦ ground (arith)
  | inr (kind, e) ↦ ground (
    arith,
    e,
    header_read buf kind (slice 17 (17 + from_le (slice 9 17 buf)) buf) h,
    length-payload buf (from_le (slice 9 17 buf)),
  )
]

-- The one-pass encoder agrees with the separate functions.
pub canonical_bytes_and_id_lem :
    (blake3 : Blake3) (b : Block)
    → (canonical_bytes_and_id blake3 b ≡ (canonical_bytes b, block_id blake3 b))
      × (block_id_from_canonical blake3 (canonical_bytes b) ≡ block_id blake3 b)
unfolding canonical_bytes_and_id block_id block_id_from_canonical header
canonical_bytes_and_id_lem blake3 b = (
  rw canonical_bytes-header refl,
  rw canonical_bytes-header (ap blake3.finalize (sym (blake3.update-update _ _ _))),
)
