-- ===== src/Shim/Chunks.antt =====
-- How the records of compressed blocks are shared out over the generations.
use dlr.Prelude.{
  ℕ, ◌+◌, ◌≡◌, ◌≤◌, ◌⊎◌, refl, sym, ap, ◌∙◌, arith, List, [], ◌∷◌, ◌++◌, map, All, length, ltb,
  true, false, concat_map, inl, inr, Bool-cases, length-append, append-nil, append_assoc,
}
use dlr.Core.Bytes.{Bytes, to_le}
use dlr.Shim.Bulk.{record_of, chunk_records}

-- The records of a run of compressed blocks.
unfoldable pub stream : List Bytes → Bytes
unfolding concat_map
stream zs = concat_map record_of zs

stream-append : (xs ys : List Bytes) → stream (xs ++ ys) ≡ stream xs ++ stream ys
unfolding stream
stream-append [] ys = refl
stream-append (x ∷ xs) ys =
    ap (λ r. record_of x ++ r) (stream-append xs ys) ∙ sym (append_assoc (record_of x) _ _)

module _ (full : ℕ) where
  -- A chunk holds one record at least, and with more than one it fits in a generation.
  pub record IsGroup (zs : List Bytes) : Type 0 where
    pub some : 1 ≤ length zs
    pub fits : (length zs ≡ 1) ⊎ (length (stream zs) ≤ full)

  pub record Grouped (zs : List Bytes) (chunks : List Bytes) : Type 0 where
    pub groups : List (List Bytes)
    pub whole : concat_map (λ g. g) groups ≡ zs
    pub streams : chunks ≡ map stream groups
    pub each : All IsGroup groups

  chunk_records-end :
      (z : Bytes) (zs : List Bytes) → chunk_records full [] (stream (z ∷ zs)) ≡ stream (z ∷ zs) ∷ []
  unfolding chunk_records stream record_of to_le
  chunk_records-end z zs = refl

  module _ (z : Bytes) (zs : List Bytes) (r : Bytes) (rs : List Bytes) where
    chunk_records-new :
        ltb full (length (stream (z ∷ zs)) + length r) ≡ true
        → chunk_records full (r ∷ rs) (stream (z ∷ zs)) ≡ stream (z ∷ zs) ∷ chunk_records full rs r
    unfolding chunk_records stream record_of to_le
    chunk_records-new e = rw e

    chunk_records-more :
        ltb full (length (stream (z ∷ zs)) + length r) ≡ false
        → chunk_records full (r ∷ rs) (stream (z ∷ zs))
          ≡ chunk_records full rs (stream (z ∷ zs) ++ r)
    unfolding chunk_records stream record_of to_le
    chunk_records-more e = rw e

  stream-one : (z : Bytes) → stream (z ∷ []) ≡ record_of z
  unfolding stream
  stream-one z = append-nil (record_of z)

  -- The chunks from a group that is being filled on.
  chunk_records-Grouped_from :
      (z : Bytes) (pre zs : List Bytes)
      → IsGroup (z ∷ pre)
      → Grouped (z ∷ (pre ++ zs)) (chunk_records full (map record_of zs) (stream (z ∷ pre)))
  unfolding concat_map
  chunk_records-Grouped_from z pre [] g = record {
    groups = (z ∷ pre) ∷ [];
    whole = refl;
    streams = chunk_records-end z pre;
    each = (g, tt);
  }
  chunk_records-Grouped_from z pre (y ∷ zs) g =
      elim (Bool-cases (ltb full (length (stream (z ∷ pre)) + length (record_of y)))) [
        | inl e ↦
            let one : IsGroup (y ∷ []) = record { some = omega arith; fits = inl refl } in
            let rest = chunk_records-Grouped_from y [] zs one in
            record {
              groups = (z ∷ pre) ∷ rest.groups;
              whole = ap (λ l. z ∷ (pre ++ l)) rest.whole;
              streams =
                  chunk_records-new z pre (record_of y) (map record_of zs) e
                  ∙ ap (λ c. stream (z ∷ pre) ∷ chunk_records full (map record_of zs) c)
                      (sym (stream-one y))
                  ∙ ap (λ l. stream (z ∷ pre) ∷ l) rest.streams;
              each = (g, rest.each);
            }
        | inr e ↦
            let joined : stream (z ∷ (pre ++ (y ∷ []))) ≡ stream (z ∷ pre) ++ record_of y =
              stream-append (z ∷ pre) (y ∷ []) ∙ ap (λ r. stream (z ∷ pre) ++ r) (stream-one y) in
            let room : length (stream (z ∷ (pre ++ (y ∷ [])))) ≤ full =
              rw joined (ground (arith, e, length-append (stream (z ∷ pre)) (record_of y))) in
            let more : IsGroup (z ∷ (pre ++ (y ∷ []))) = record {
              some = omega arith;
              fits = inr room;
            } in
            let rest = chunk_records-Grouped_from z (pre ++ (y ∷ [])) zs more in
            record {
              groups = rest.groups;
              whole = rest.whole ∙ ap (λ l. z ∷ l) (append_assoc pre (y ∷ []) zs);
              streams =
                  chunk_records-more z pre (record_of y) (map record_of zs) e
                  ∙ ap (chunk_records full (map record_of zs)) (sym joined)
                  ∙ rest.streams;
              each = rest.each;
            }
      ]

  -- The compressed blocks, in order, are shared out over the chunks: each chunk is the records of a
  -- run of whole blocks, one at least, and is no longer than a generation unless it is a single
  -- record.
  pub chunk_records-Grouped :
      (zs : List Bytes) → Grouped zs (chunk_records full (map record_of zs) [])
  unfolding chunk_records concat_map
  chunk_records-Grouped [] = record { groups = []; whole = refl; streams = refl; each = tt }
  chunk_records-Grouped (z ∷ zs) =
      let one : IsGroup (z ∷ []) = record { some = omega arith; fits = inl refl } in
      let rest = chunk_records-Grouped_from z [] zs one in
      record {
        groups = rest.groups;
        whole = rest.whole;
        streams = ap (chunk_records full (map record_of zs)) (sym (stream-one z)) ∙ rest.streams;
        each = rest.each;
      }
