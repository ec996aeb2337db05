-- ===== src/Core/Wal/Scan.antt =====
-- The replay loop over a log of whole records, with or without a torn tail.
use dlr.Prelude.{
  ℕ, zero, suc, ◌+◌, ◌≡◌, refl, sym, ◌∙◌, arith, [], ◌∷◌, ◌++◌, length, take, drop, some, false,
  ltb, length-append, append_assoc, append-nil, take-append_len, drop-append_len, drop-drop,
}
use dlr.Core.Bytes.{Bytes, to_le, from_le, slice, length-to_le, from_le-to_le}
use dlr.Core.Blake3.{Blake3}
use dlr.Core.Block.{IsU128}
use dlr.Core.Canonical.{byte_at}
use dlr.Core.Store.{ContentStore}
use dlr.Core.Wal.{Disk, max_record_bytes}
use dlr.Core.Wal.Replay.{read_exact_or_eof, replay}
use dlr.Core.Wal.Records.{
  Record, insert, refer, seed, content, session_of, variant_of, payload_of, encode_record, IsRecord,
  apply_record, length-payload_of, replay_record-payload,
}

session_of-IsU128 : (r : Record) → IsRecord r → IsU128 (session_of r)
session_of-IsU128 (insert sid b) h = h.0
session_of-IsU128 (refer sid id) h = h.0
session_of-IsU128 (seed sid ids root) h = h.0
session_of-IsU128 (content sid b) h = h.0

-- The 21-byte header of a record.
pub record_header : Record → Bytes
record_header r = to_le 16 (session_of r) ++ (variant_of r ∷ to_le 4 (length (payload_of r)))

pub encode_record-header : (r : Record) → encode_record r ≡ record_header r ++ payload_of r
unfolding encode_record record_header
encode_record-header r = simp append_assoc

pub length-record_header : (r : Record) → length (record_header r) ≡ 21
unfolding record_header
length-record_header r = omega (
  arith,
  length-append (to_le 16 (session_of r)) (variant_of r ∷ to_le 4 (length (payload_of r))),
  length-to_le 16 (session_of r),
  length-to_le 4 (length (payload_of r)),
)

pub length-encode_record : (r : Record) → length (encode_record r) ≡ 21 + length (payload_of r)
length-encode_record r =
    rw encode_record-header
      (omega (arith, length-append (record_header r) (payload_of r), length-record_header r))

byte_at-append :
    (xs : Bytes) (n b : ℕ) (ys : Bytes) → length xs ≡ n → byte_at (xs ++ (b ∷ ys)) n ≡ b
byte_at-append [] zero b ys h = refl
byte_at-append [] (suc n) b ys h = absurd (omega arith)
byte_at-append (x ∷ xs) zero b ys h = absurd (omega arith)
byte_at-append (x ∷ xs) (suc n) b ys h = byte_at-append xs n b ys (omega arith)

module _ (r : Record) (h : IsRecord r) where
  header_session : from_le (slice 0 16 (record_header r)) ≡ session_of r
  unfolding record_header
  header_session =
      rw (take-append_len 16 (to_le 16 (session_of r)) _ (length-to_le 16 (session_of r)))
        (from_le-to_le 16 (session_of r) (omega (arith, session_of-IsU128 r h)))

  header_variant : byte_at (record_header r) 16 ≡ variant_of r
  unfolding record_header
  header_variant =
      byte_at-append (to_le 16 (session_of r)) 16 (variant_of r) _ (length-to_le 16 (session_of r))

  pub header_len : from_le (slice 17 21 (record_header r)) ≡ length (payload_of r)
  unfolding record_header
  header_len =
      let n = length (payload_of r) in
      let field : take 4 (to_le 4 n) ≡ to_le 4 n =
        rw append-nil at (take-append_len 4 (to_le 4 n) [] (length-to_le 4 n)) in
      let tail : drop 17 (to_le 16 (session_of r) ++ (variant_of r ∷ to_le 4 n)) ≡ to_le 4 n =
        sym (drop-drop 1 16 (to_le 16 (session_of r) ++ (variant_of r ∷ to_le 4 n)))
        ∙ rw (drop-append_len 16 (to_le 16 (session_of r)) _ (length-to_le 16 (session_of r)))
            refl in
      rw (tail, field) (from_le-to_le 4 n (omega (arith, length-payload_of r h)))

pub read_exact_or_eof-append :
    (n : ℕ) (xs rest : Bytes) → length xs ≡ n → read_exact_or_eof n (xs ++ rest) ≡ some (xs, rest)
unfolding read_exact_or_eof
read_exact_or_eof-append n xs rest h =
    ground (arith, length-append xs rest, take-append_len n xs rest h, drop-append_len n xs rest h)

module _ (blake3 : Blake3) (disk : Disk) where
  -- One round of the loop takes one whole record.
  pub replay-encode_record :
      (r : Record) (fuel position : ℕ) (rest : Bytes) (s : ContentStore)
      → IsRecord r
      → replay blake3 disk (suc fuel) position (encode_record r ++ rest) s
        ≡ replay blake3 disk fuel
            (position + length (encode_record r))
            rest
            (apply_record blake3 disk r s)
  unfolding replay
  replay-encode_record r fuel position rest s h =
      let n = length (payload_of r) in
      let small : ltb max_record_bytes n ≡ false = ground (arith, length-payload_of r h) in
      ground (
        arith,
        length-encode_record r,
        encode_record-header r,
        append_assoc (record_header r) (payload_of r) rest,
        read_exact_or_eof-append 21 (record_header r) (payload_of r ++ rest)
            (length-record_header r),
        header_session r h,
        header_variant r h,
        header_len r h,
        small,
        read_exact_or_eof-append n (payload_of r) rest refl,
        replay_record-payload blake3 disk r s h,
      )
