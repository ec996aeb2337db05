-- ===== src/Core/Filter/Kept.antt =====
-- A filter that does not grow forgets nothing.
use dlr.Prelude.{
  ℕ, ◌≤◌, ◌<◌, ◌≡◌, ◌⊎◌, inl, inr, refl, sym, subst, ap, ◌∙◌, arith, List, [], ◌∷◌, length, All,
  Bool, true, false, if◌then◌else◌, Bool-cases,
}
use dlr.Core.Bytes.{Bytes}
use dlr.Core.Filter.{
  CuckooFilter, clear, has, bucket_at, kick, kicks, fingerprint, index_of, grow, retry, insert_id,
  contains_id, with_capacity, bucket_count,
}
use dlr.Core.Filter.Mask.{bit_and-lt}
use dlr.Core.Filter.Kicks.{IsTable, Kept, Stored, kick-Stored}
use dlr.Core.Filter.Width.{
  no_buckets-whole, length-no_buckets, bucket_count-pow, pow_pos, length-kick, length-grow,
  grow_refused, length-retry, length-grow_le,
}

-- A filter as it comes from the operations.
abbrev pub IsFilter : CuckooFilter → Type 0
IsFilter f = (f.saturated ≡ true) ⊎ IsTable f

module _ (xxh3 : Bytes → ℕ) where
  fingerprint-pos : (id : Bytes) → 0 < fingerprint xxh3 id
  unfolding fingerprint
  fingerprint-pos id = ground arith

  -- What a step keeps, unless the table has become wider.
  record Keeps (f g : CuckooFilter) : Type 0 where
    filter : IsFilter g
    width : length g.buckets ≡ length f.buckets
    keeps : (x : Bytes) → contains_id xxh3 x f ≡ true → contains_id xxh3 x g ≡ true

  contains-saturated :
      (x : Bytes) (f : CuckooFilter) → f.saturated ≡ true → contains_id xxh3 x f ≡ true
  unfolding contains_id
  contains-saturated x f h = rw (contains_id, h)

  contains-Kept :
      (x : Bytes) (f : CuckooFilter)
      → Kept f (index_of xxh3 f.mask x) (fingerprint xxh3 x)
      → contains_id xxh3 x f ≡ true
  unfolding contains_id
  contains-Kept x f (inl k) = ground (arith, k)
  contains-Kept x f (inr k) = ground (arith, k)

  Kept-contains :
      (x : Bytes) (f : CuckooFilter)
      → f.saturated ≡ false
      → contains_id xxh3 x f ≡ true
      → Kept f (index_of xxh3 f.mask x) (fingerprint xxh3 x)
  unfolding contains_id
  Kept-contains x f calm h =
      elim (Bool-cases (has (fingerprint xxh3 x) (bucket_at f.buckets (index_of xxh3 f.mask x)))) [
        | inl e ↦ inl e
        | inr e ↦ inr (rw (contains_id, calm, e) at h)
      ]

  index_of-lt :
      (f : CuckooFilter) (x : Bytes) → IsTable f → index_of xxh3 f.mask x < length f.buckets
  unfolding index_of
  index_of-lt f x t = rw t.wide (bit_and-lt t.bits f.mask (xxh3 x) t.masks)

pub with_capacity-IsFilter : (n : ℕ) → IsFilter (with_capacity n)
unfolding with_capacity
with_capacity-IsFilter n =
    let (k, p) = bucket_count-pow n in
    inr (record {
      bits = k;
      wide = length-no_buckets (bucket_count n) ∙ p;
      masks = omega (arith, p, pow_pos k);
      whole = no_buckets-whole (bucket_count n);
    })

pub clear-IsFilter : (f : CuckooFilter) → IsTable f → IsFilter (clear f)
unfolding clear
clear-IsFilter f t = inr (record {
  bits = t.bits;
  wide = length-no_buckets (length f.buckets) ∙ t.wide;
  masks = t.masks;
  whole = no_buckets-whole (length f.buckets);
})

module _ (xxh3 : Bytes → ℕ) where
  Stored-Keeps :
      (id : Bytes) (f g : CuckooFilter)
      → IsTable f
      → f.saturated ≡ false
      → Stored f g (index_of xxh3 f.mask id) (fingerprint xxh3 id)
      → Keeps xxh3 f g × (contains_id xxh3 id g ≡ true)
  Stored-Keeps id f g t calm s =
      let at : (x : Bytes)
          → Kept g (index_of xxh3 f.mask x) (fingerprint xxh3 x)
          → contains_id xxh3 x g ≡ true =
        λ x k.
          contains-Kept xxh3 x g
            (subst (λ m. Kept g (index_of xxh3 m x) (fingerprint xxh3 x)) (sym s.same_mask) k) in
      (
        record {
          filter = inr s.table;
          width = s.same_width;
          keeps = λ x h. at x (
              s.keeps (index_of xxh3 f.mask x) (fingerprint xxh3 x) (fingerprint-pos xxh3 x)
                (index_of-lt xxh3 f x t) (inl (Kept-contains xxh3 x f calm h)));
        },
        at id (
            s.keeps (index_of xxh3 f.mask id) (fingerprint xxh3 id) (fingerprint-pos xxh3 id)
              (index_of-lt xxh3 f id t) (inr (refl, inl refl))),
      )

  insert_id_full :
      (id : Bytes) (f : CuckooFilter) → f.saturated ≡ true → insert_id xxh3 id f ≡ (f, false)
  unfolding insert_id
  insert_id_full id f h = simp (insert_id, h)

  -- What a filter that is not saturated does after its kicks.
  abbrev behind : Bytes → CuckooFilter × Bool → CuckooFilter × Bool
  behind id (kicked, stored) =
      if stored
      then (kicked, true)
      else if (grow xxh3 kicked).1
      then retry xxh3 id (grow xxh3 kicked).0
      else (record (grow xxh3 kicked).0 { saturated = true }, false)

  insert_id_calm :
      (id : Bytes) (f : CuckooFilter)
      → f.saturated ≡ false
      → insert_id xxh3 id f
        ≡ behind id (kick kicks (index_of xxh3 f.mask id) (fingerprint xxh3 id) f)
  unfolding insert_id
  insert_id_calm id f h = simp (insert_id, h)

  -- Not wider, and nothing forgotten; or wider.
  abbrev KeepsOrGrew : Bytes → CuckooFilter → CuckooFilter → Type 0
  KeepsOrGrew id f g =
      (length f.buckets < length g.buckets) ⊎ (Keeps xxh3 f g × (contains_id xxh3 id g ≡ true))

  saturated-KeepsOrGrew :
      (id : Bytes) (f g : CuckooFilter)
      → g.saturated ≡ true
      → length g.buckets ≡ length f.buckets
      → KeepsOrGrew id f g
  saturated-KeepsOrGrew id f g full width = inr (
    record { filter = inl full; width = width; keeps = λ x w. contains-saturated xxh3 x g full },
    contains-saturated xxh3 id g full,
  )

  behind-KeepsOrGrew :
      (id : Bytes) (f : CuckooFilter)
      → IsTable f
      → f.saturated ≡ false
      → KeepsOrGrew id f
          (behind id (kick kicks (index_of xxh3 f.mask id) (fingerprint xxh3 id) f)).0
  behind-KeepsOrGrew id f t calm =
      let i = index_of xxh3 f.mask id in
      let h = fingerprint xxh3 id in
      let kicked = kick kicks i h f in
      let width = length-kick xxh3 kicks i h f in
      let some_buckets : 0 < length kicked.0.buckets =
        omega (arith, width, t.wide, pow_pos t.bits) in
      elim (Bool-cases kicked.1) [
        | inl e ↦ rw e (
            inr (
              Stored-Keeps id f kicked.0 t calm
                (kick-Stored kicks i h f t (index_of-lt xxh3 f id t) e)))
        | inr e ↦ elim (Bool-cases (grow xxh3 kicked.0).1) [
          | inl grew ↦ elim (length-grow xxh3 kicked.0 some_buckets) [
            | inl still ↦ absurd (cc)
            | inr wider ↦
                rw (e, grew)
                  (inl (omega (arith, wider, width, length-retry xxh3 id (grow xxh3 kicked.0).0)))
          ]
          | inr stuck ↦
              rw (e, stuck)
                (saturated-KeepsOrGrew id f _ refl (
                  ap (λ (g : CuckooFilter). length g.buckets) (grow_refused xxh3 kicked.0 stuck)
                  ∙ width))
        ]
      ]

  insert_id-KeepsOrGrew :
      (id : Bytes) (f : CuckooFilter) → IsFilter f → KeepsOrGrew id f (insert_id xxh3 id f).0
  insert_id-KeepsOrGrew id f h = elim (Bool-cases f.saturated) [
    | inl full ↦
        saturated-KeepsOrGrew id f _
          (ap (λ (r : CuckooFilter × Bool). r.0.saturated) (insert_id_full id f full) ∙ full)
          (ap (λ (r : CuckooFilter × Bool). length r.0.buckets) (insert_id_full id f full))
    | inr calm ↦ elim h [
      | inl full ↦ absurd (cc)
      | inr t ↦
          subst (λ (r : CuckooFilter × Bool). KeepsOrGrew id f r.0) (sym (insert_id_calm id f calm))
            (behind-KeepsOrGrew id f t calm)
    ]
  ]

  abbrev pub insert_all : List Bytes → CuckooFilter → CuckooFilter
  insert_all [] f = f
  insert_all (id ∷ ids) f = insert_all ids (insert_id xxh3 id f).0

  behind_le :
      (id : Bytes) (r : CuckooFilter × Bool) → length r.0.buckets ≤ length (behind id r).0.buckets
  behind_le id (kicked, true) = omega arith
  behind_le id (kicked, false) = elim (Bool-cases (grow xxh3 kicked).1) [
    | inl grew ↦
        rw grew
          (omega (arith, length-grow_le xxh3 kicked, length-retry xxh3 id (grow xxh3 kicked).0))
    | inr stuck ↦ rw stuck (length-grow_le xxh3 kicked)
  ]

  length-insert_id :
      (id : Bytes) (f : CuckooFilter) → length f.buckets ≤ length (insert_id xxh3 id f).0.buckets
  length-insert_id id f = elim (Bool-cases f.saturated) [
    | inl full ↦
        omega
          (arith, ap (λ (r : CuckooFilter × Bool). length r.0.buckets) (insert_id_full id f full))
    | inr calm ↦
        let kicked = kick kicks (index_of xxh3 f.mask id) (fingerprint xxh3 id) f in
        omega (
          arith,
          ap (λ (r : CuckooFilter × Bool). length r.0.buckets) (insert_id_calm id f calm),
          behind_le id kicked,
          length-kick xxh3 kicks (index_of xxh3 f.mask id) (fingerprint xxh3 id) f,
        )
  ]

  length-insert_all :
      (ids : List Bytes) (f : CuckooFilter) → length f.buckets ≤ length (insert_all ids f).buckets
  length-insert_all [] f = omega arith
  length-insert_all (id ∷ ids) f =
      omega (arith, length-insert_id id f, length-insert_all ids (insert_id xxh3 id f).0)

  -- A filter whose table never grew while ids were inserted has no false negatives: it says "maybe"
  -- of each of the ids and of each one it said "maybe" of before, however the insertions evicted one
  -- another, and also when one of them saturated it. The filter is saturated, or has a power of two
  -- of whole buckets and the mask for them.
  pub insert_all-Contained :
      (ids : List Bytes) (f : CuckooFilter)
      → IsFilter f
      → length (insert_all ids f).buckets ≡ length f.buckets
      → All (λ id. contains_id xxh3 id (insert_all ids f) ≡ true) ids
        × ((x : Bytes) → contains_id xxh3 x f ≡ true → contains_id xxh3 x (insert_all ids f) ≡ true)
  insert_all-Contained [] f h same = (tt, λ x k. k)
  insert_all-Contained (id ∷ ids) f h same =
      let g = (insert_id xxh3 id f).0 in
      let later = length-insert_all ids g in
      elim (insert_id-KeepsOrGrew id f h) [
        | inl wider ↦ absurd (omega (arith, same, later, wider))
        | inr (kept, here) ↦
            let (rest, old) = insert_all-Contained ids g kept.filter (same ∙ sym kept.width) in
            ((old id here, rest), λ x k. old x (kept.keeps x k))
      ]
