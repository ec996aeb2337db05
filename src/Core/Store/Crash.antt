-- ===== src/Core/Store/Crash.antt =====
-- A crash: a log of which only a prefix reached the disk.
use dlr.Prelude.{
  ℕ, zero, suc, ◌≡◌, refl, ap, arith, List, [], ◌∷◌, ◌++◌, All, none, some, leb, concat_map,
  append-nil, append_assoc, Bool-cases, inl, inr, take, length, ◌≤◌, length-append, take-append_le,
}
use dlr.Prelude.Results.{ok}
use dlr.Core.Bytes.{Bytes}
use dlr.Core.Blake3.{Blake3}
use dlr.Core.Wal.{Disk}
use dlr.Core.Wal.Replay.{with_wal}
use dlr.Core.Wal.Torn.{open_wal-Cut}
use dlr.Core.Wal.Records.{Record, encode_record, apply_record, apply_all}
use dlr.Core.Store.{ContentStore, new_store}
use dlr.Core.Store.Durable.{
  IsOp, SameMaps, Shadow, Next, Grows, Shadow-apply_record, apply_all-append,
}
use dlr.Core.Store.Detached.{set_wal-apply_all}
use dlr.Core.Store.Recovery.{fresh, all_latched, Shadow-fresh}

take_all {ℓ} : {A : Type ℓ} → (n : ℕ) (xs : List A) → length xs ≤ n → take n xs ≡ xs
take_all zero [] h = refl
take_all zero (x ∷ xs) h = absurd (omega arith)
take_all (suc n) [] h = refl
take_all (suc n) (x ∷ xs) h = ap (λ ys. x ∷ ys) (take_all n xs (omega arith))

module _ (blake3 : Blake3) (disk : Disk) where
  -- The store behind the operations of `done`, and a state between two operations for each prefix of
  -- the log.
  abbrev Between : List Record → List Record → ℕ → Type 0
  Between log done k =
      (j : ℕ) × (j ≤ length done)
      × SameMaps (apply_all blake3 disk (take k log) new_store)
          (apply_all blake3 disk (take j done) fresh)

  record History (done : List Record) : Type 0 where
    shadow : Shadow blake3 disk (apply_all blake3 disk done fresh)
    prefixes : (k : ℕ) → Between shadow.log done k

  Between-append :
      (log done : List Record) (r : Record) (k : ℕ)
      → Between log done k
      → Between log (done ++ (r ∷ [])) k
  Between-append log done r k (j, hj, same) =
      (j, omega (arith, length-append done (r ∷ [])), rw (take-append_le j done (r ∷ []) hj) same)

  Between-all :
      (log done : List Record)
      → SameMaps (apply_all blake3 disk log new_store) (apply_all blake3 disk done fresh)
      → (k : ℕ) → length log ≤ k
      → Between log done k
  Between-all log done same k h = (
    length done,
    omega arith,
    rw (take_all k log h, take_all (length done) done (omega arith)) same,
  )

  Between-grow :
      (log log' done : List Record) (r : Record)
      → Grows blake3 disk log log'
      → ((k : ℕ) → Between log done k)
      → SameMaps
          (apply_all blake3 disk log' new_store)
          (apply_all blake3 disk (done ++ (r ∷ [])) fresh)
      → (k : ℕ) → Between log' (done ++ (r ∷ [])) k
  Between-grow log log' done r (inl e) old same k = rw e (Between-append log done r k (old k))
  Between-grow log log' done r (inr (x, e)) old same k = elim (Bool-cases (leb k (length log))) [
    | inl le ↦
        let le' : k ≤ length log = ground arith in
        let (j, hj, m) = Between-append log done r k (old k) in
        (j, hj, rw (e, take-append_le k log (x ∷ []) le') m)
    | inr gt ↦
        Between-all log' (done ++ (r ∷ [])) same k
          (ground (arith, ap (λ (l : List Record). length l) e, length-append log (x ∷ [])))
  ]

  History-append :
      (done : List Record) (r : Record)
      → History done
      → IsOp r
      → (apply_all blake3 disk (done ++ (r ∷ [])) fresh).wal_error ≡ none
      → History (done ++ (r ∷ []))
  History-append done r h ho clean =
      let e = apply_all-append blake3 disk done r fresh in
      let next : Next blake3 disk h.shadow.log (apply_all blake3 disk (done ++ (r ∷ [])) fresh) =
        rw e (Shadow-apply_record blake3 disk r _ ho h.shadow (rw e at clean)) in
      record {
        shadow = next.shadow;
        prefixes =
            Between-grow h.shadow.log next.shadow.log done r next.grows h.prefixes next.shadow.same;
      }

  apply_all-split :
      (done todo : List Record) (s : ContentStore)
      → apply_all blake3 disk (done ++ todo) s
        ≡ apply_all blake3 disk todo (apply_all blake3 disk done s)
  unfolding apply_all
  apply_all-split [] todo s = refl
  apply_all-split (r ∷ done) todo s = apply_all-split done todo (apply_record blake3 disk r s)

  History-reached :
      (done todo : List Record)
      → History done
      → All IsOp todo
      → (apply_all blake3 disk (done ++ todo) fresh).wal_error ≡ none
      → History (done ++ todo)
  History-reached done [] h ho clean = rw append-nil h
  History-reached done (r ∷ todo) h ho clean =
      let e : done ++ (r ∷ todo) ≡ (done ++ (r ∷ [])) ++ todo = rw append_assoc refl in
      let clean' : (apply_all blake3 disk ((done ++ (r ∷ [])) ++ todo) fresh).wal_error ≡ none =
        rw e at clean in
      let clean_here =
        all_latched blake3 disk todo _ (rw (apply_all-split (done ++ (r ∷ []))) at clean') in
      rw e (
        History-reached (done ++ (r ∷ [])) todo (History-append done r h ho.0 clean_here) ho.1
          clean')

  History-fresh : History []
  unfolding apply_all Shadow-fresh
  History-fresh = record {
    shadow = Shadow-fresh blake3 disk;
    prefixes = λ k. (
      0,
      omega arith,
      rw (take_all {A = Record} k [] (omega arith)) (record { blocks = refl; sessions = refl }),
    );
  }

  with_wal-History :
      (ops : List Record) (h : History ops) (n : ℕ)
      → (s : ContentStore) × (j : ℕ) × (with_wal blake3 disk
            (take n (concat_map encode_record h.shadow.log))
          ≡ ok s)
        × (j ≤ length ops)
        × SameMaps s (apply_all blake3 disk (take j ops) fresh)
  unfolding with_wal
  with_wal-History ops h n =
      let (k, cut, e) = open_wal-Cut blake3 disk h.shadow.log n new_store h.shadow.valid in
      let (j, hj, same) = h.prefixes k in
      (
        record (apply_all blake3 disk (take k h.shadow.log) new_store) {
          wal = some (concat_map encode_record (take k h.shadow.log));
        },
        j,
        rw (e, with_wal) (rw e (ap ok (set_wal-apply_all blake3 disk _ (take k h.shadow.log)))),
        hj,
        record { blocks = same.blocks; sessions = same.sessions },
      )

  -- A store that starts with an empty log and runs a sequence of operations with well-formed
  -- arguments, with no write error latched at the end, has a log; and `with_wal` on the log's first
  -- `n` bytes, whatever `n` is, succeeds with the blocks and the sessions that the store had after
  -- some number of its operations.
  pub with_wal_crash :
      (ops : List Record)
      → All IsOp ops
      → (apply_all blake3 disk ops fresh).wal_error ≡ none
      → (file : Bytes) × ((apply_all blake3 disk ops fresh).wal ≡ some file)
        × ((n : ℕ)
            → (s : ContentStore) × (j : ℕ) × (with_wal blake3 disk (take n file) ≡ ok s)
              × (j ≤ length ops)
              × SameMaps s (apply_all blake3 disk (take j ops) fresh))
  with_wal_crash ops ho clean =
      let h = History-reached [] ops History-fresh ho clean in
      (concat_map encode_record h.shadow.log, h.shadow.bytes, with_wal-History ops h)
