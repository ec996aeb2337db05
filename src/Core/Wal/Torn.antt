-- ===== src/Core/Wal/Torn.antt =====
-- A log that was cut at any byte.
use dlr.Prelude.{
  ℕ, zero, suc, ◌+◌, ◌-◌, ◌≤◌, ◌<◌, ◌≡◌, refl, sym, ap, ◌∙◌, arith, List, [], ◌∷◌, ◌++◌, length,
  take, drop, All, none, some, true, false, ltb, if◌then◌else◌, concat_map, length-append,
  append_assoc, append-nil, take-append_len, take-append_le, take-append_ge, drop-cons, All-take,
  take-append-drop, length-drop, ltb→lt, Bool-cases, inl, inr, ◌⊎◌,
}
use native.Mathlib.Nat.{add-zero, zero-add}
use dlr.Prelude.Results.{ok}
use dlr.Core.Bytes.{Bytes}
use dlr.Core.Blake3.{Blake3}
use dlr.Core.Store.{ContentStore}
use dlr.Core.Wal.{Disk, max_record_bytes}
use dlr.Core.Wal.Replay.{done, read_exact_or_eof, replay, open_wal}
use dlr.Core.Wal.Records.{
  Record, payload_of, encode_record, IsRecord, apply_record, apply_all, length-payload_of,
}
use dlr.Core.Wal.Scan.{
  record_header, encode_record-header, length-record_header, length-encode_record, header_len,
  replay-encode_record,
}

-- What is left of a record when some of its last bytes are missing, or nothing at all.
abbrev pub IsTorn : Bytes → Type 0
IsTorn t =
    (t ≡ [])
    ⊎ ((r : Record) × (x : ℕ) × (back : Bytes) × IsRecord r × (encode_record r ≡ t ++ (x ∷ back)))

read_exact_or_eof-short : (n : ℕ) (r : Bytes) → length r < n → read_exact_or_eof n r ≡ none
unfolding read_exact_or_eof
read_exact_or_eof-short n r h = ground arith

read_exact_or_eof-long :
    (n : ℕ) (r : Bytes) → n ≤ length r → read_exact_or_eof n r ≡ some (take n r, drop n r)
unfolding read_exact_or_eof
read_exact_or_eof-long n r h = ground arith

module _ (blake3 : Blake3) (disk : Disk) (fuel position : ℕ) (s : ContentStore) where
  replay-short :
      (t : Bytes) → length t < 21 → replay blake3 disk (suc fuel) position t s ≡ (s, done position)
  unfolding replay
  replay-short t h = ground (arith, read_exact_or_eof-short 21 t h)

  replay-cut :
      (r : Record) (t : Bytes) (x : ℕ) (back : Bytes)
      → IsRecord r
      → encode_record r ≡ t ++ (x ∷ back)
      → 21 ≤ length t
      → replay blake3 disk (suc fuel) position t s ≡ (s, done position)
  unfolding replay
  replay-cut r t x back h e long =
      let whole : record_header r ++ payload_of r ≡ t ++ (x ∷ back) =
        sym (encode_record-header r) ∙ e in
      let front : take 21 t ≡ record_header r =
        sym (take-append_le 21 t (x ∷ back) long)
        ∙ rw (← whole)
            (take-append_len 21 (record_header r) (payload_of r) (length-record_header r)) in
      let size : length (payload_of r) ≡ length t + suc (length back) - 21 = omega (
        arith,
        ap (λ (l : Bytes). length l) e,
        length-append t (x ∷ back),
        length-encode_record r,
      ) in
      let small : ltb max_record_bytes (length (payload_of r)) ≡ false =
        ground (arith, length-payload_of r h) in
      ground (
        arith,
        read_exact_or_eof-long 21 t long,
        front,
        header_len r h,
        small,
        read_exact_or_eof-short (length (payload_of r)) (drop 21 t)
            (omega (arith, size, length-drop 21 t)),
      )

  replay-torn :
      (t : Bytes) → IsTorn t → replay blake3 disk (suc fuel) position t s ≡ (s, done position)
  replay-torn t (inl e) = replay-short t (rw e (omega arith))
  replay-torn t (inr (r, x, back, h, e)) = elim (Bool-cases (ltb (length t) 21)) [
    | inl short ↦ replay-short t (ground arith)
    | inr long ↦ replay-cut r t x back h e (ground arith)
  ]

module _ (blake3 : Blake3) (disk : Disk) where
  -- Fuel for one round more than there are records is enough.
  replay-encoded :
      (rs : List Record) (t : Bytes) (fuel position : ℕ) (s : ContentStore)
      → All IsRecord rs
      → IsTorn t
      → length rs < fuel
      → replay blake3 disk fuel position (concat_map encode_record rs ++ t) s
        ≡ (apply_all blake3 disk rs s, done (position + length (concat_map encode_record rs)))
  unfolding apply_all concat_map
  replay-encoded rs t zero position s h torn hf = absurd (omega arith)
  replay-encoded [] t (suc fuel) position s h torn hf =
      rw (replay-torn blake3 disk fuel position s t torn, add-zero)
  replay-encoded (r ∷ rs) t (suc fuel) position s h torn hf =
      let regroup : position + length (encode_record r) + length (concat_map encode_record rs)
          ≡ position + length (encode_record r ++ concat_map encode_record rs) =
        omega (arith, length-append (encode_record r) (concat_map encode_record rs)) in
      rw (
        append_assoc,
        replay-encode_record blake3 disk r fuel position (concat_map encode_record rs ++ t) s h.0,
        replay-encoded rs t fuel (position + length (encode_record r))
            (apply_record blake3 disk r s) h.1 torn (omega arith),
        regroup,
      )

records-le-length : (rs : List Record) → length rs ≤ length (concat_map encode_record rs)
unfolding concat_map
records-le-length [] = omega arith
records-le-length (r ∷ rs) = omega (
  arith,
  records-le-length rs,
  length-append (encode_record r) (concat_map encode_record rs),
  length-encode_record r,
)

cut_back :
    (log t : Bytes)
    → (if ltb (length log) (length (log ++ t)) then take (length log) (log ++ t) else log ++ t)
      ≡ log
cut_back log [] = rw append-nil (ground arith)
cut_back log (x ∷ t) =
    let longer : ltb (length log) (length (log ++ (x ∷ t))) ≡ true =
      ground (arith, length-append log (x ∷ t)) in
    rw longer (take-append_len (length log) log (x ∷ t) refl)

-- Opening a log of whole records with a torn tail applies exactly the whole records, in order, and
-- the log that is written on from there is cut back to them.
pub open_wal-encoded :
    (blake3 : Blake3) (disk : Disk) (rs : List Record) (t : Bytes) (s : ContentStore)
    → All IsRecord rs
    → IsTorn t
    → open_wal blake3 disk (concat_map encode_record rs ++ t) s
      ≡ (apply_all blake3 disk rs s, ok (concat_map encode_record rs))
unfolding open_wal
open_wal-encoded blake3 disk rs t s h torn =
    let log = concat_map encode_record rs in
    let enough : length rs < suc (length (log ++ t)) =
      omega (arith, records-le-length rs, length-append log t) in
    let run : replay blake3 disk (suc (length (log ++ t))) 0 (log ++ t) s
        ≡ (apply_all blake3 disk rs s, done (0 + length log)) =
      replay-encoded blake3 disk rs t _ 0 s h torn enough in
    rw (run, open_wal, zero-add, cut_back log t) (rw run)

-- The records `take k rs` are those that end at or before byte `n`, and no more.
pub record Cut (rs : List Record) (n k : ℕ) : Type 0 where
  pub whole : length (concat_map encode_record (take k rs)) ≤ n
  pub last : k < length rs → n < length (concat_map encode_record (take (suc k) rs))

-- Where a cut of a log falls: behind the first of its records, and perhaps inside the next.
Cut-records :
    (rs : List Record) (n : ℕ)
    → All IsRecord rs
    → (k : ℕ) × (t : Bytes) × IsTorn t
      × Cut rs n k
      × (take n (concat_map encode_record rs) ≡ concat_map encode_record (take k rs) ++ t)
unfolding concat_map
Cut-records [] n h =
    (0, [], inl refl, record { whole = omega arith; last = λ p. absurd (omega arith) }, take_nil n)
  where
    take_nil : (k : ℕ) → take {A = ℕ} k [] ≡ []
    take_nil zero = refl
    take_nil (suc k) = refl
Cut-records (r ∷ rs) n h = elim (Bool-cases (ltb n (length (encode_record r)))) [
  | inl inside ↦
      let (x, back, e) = drop-cons n (encode_record r) (ground arith) in
      let split : encode_record r ≡ take n (encode_record r) ++ (x ∷ back) =
        rw e at (sym (take-append-drop n (encode_record r))) in
      (
        0,
        take n (encode_record r),
        inr (r, x, back, h.0, split),
        record {
          whole = omega arith;
          last = λ p. omega (arith, length-append (encode_record r) [], ltb→lt n _ inside);
        },
        take-append_le n (encode_record r) (concat_map encode_record rs) (ground arith),
      )
  | inr past ↦
      let (k, t, torn, cut, e) = Cut-records rs (n - length (encode_record r)) h.1 in
      let behind : length (encode_record r) ≤ n = ground arith in
      (
        suc k,
        t,
        torn,
        record {
          whole = omega (
            arith,
            length-append (encode_record r) (concat_map encode_record (take k rs)),
            cut.whole,
          );
          last = λ p. omega (
            arith,
            length-append (encode_record r) (concat_map encode_record (take (suc k) rs)),
            cut.last (omega arith),
          );
        },
        take-append_ge n (encode_record r) (concat_map encode_record rs) (ground arith)
            ∙ rw (e, append_assoc),
      )
]

-- A log that was cut at any byte: opening it applies, in order, exactly the records that end at or
-- before the cut, and cuts the log back to them.
pub open_wal-Cut :
    (blake3 : Blake3) (disk : Disk) (rs : List Record) (n : ℕ) (s : ContentStore)
    → All IsRecord rs
    → (k : ℕ) × Cut rs n k
      × (open_wal blake3 disk (take n (concat_map encode_record rs)) s
          ≡ (apply_all blake3 disk (take k rs) s, ok (concat_map encode_record (take k rs))))
open_wal-Cut blake3 disk rs n s h =
    let (k, t, torn, cut, e) = Cut-records rs n h in
    (k, cut, rw e (open_wal-encoded blake3 disk (take k rs) t s (All-take IsRecord k rs h) torn))
