-- ===== src/Core/Filter/Width.antt =====
-- Widths of the filter's table: what it is made with, and when it changes.
use native.Mathlib.Nat.{pow-suc}
use dlr.Prelude.{
  ℕ, zero, suc, ◌-◌, ◌*◌, ◌/◌, ◌^◌, ◌≤◌, ◌<◌, ◌≡◌, ◌⊎◌, inl, inr, refl, ap, ◌∙◌, arith, List, [],
  ◌∷◌, length, All, false, leb, ◌==◌, set_at, Bool-cases, Option-cases, ==_iff,
}
use Prim.Native.Nat.{bit_and}
use dlr.Core.Bytes.{Bytes, to_le}
use dlr.Core.Filter.{
  Bucket, CuckooFilter, slots, max_buckets, place_or_drop, place, has, bucket_at, kick, fingerprint,
  index_of, grow, rehash, rehash_one, retry, no_buckets, fingerprints, bucket_count,
  next_power_of_two, empty_bucket,
}
use dlr.Core.Filter.Kicks.{length-set_at}

pub no_buckets-whole : (n : ℕ) → All (λ (b : Bucket). length b ≡ 4) (no_buckets n)
unfolding empty_bucket
no_buckets-whole zero = tt
no_buckets-whole (suc n) = (refl, no_buckets-whole n)

pub length-no_buckets : (n : ℕ) → length (no_buckets n) ≡ n
length-no_buckets zero = refl
length-no_buckets (suc n) = ap suc (length-no_buckets n)

next_power_of_two-pow : (fuel bits n : ℕ) → (k : ℕ) × (next_power_of_two fuel (2 ^ bits) n ≡ 2 ^ k)
unfolding next_power_of_two
next_power_of_two-pow zero bits n = (bits, refl)
next_power_of_two-pow (suc fuel) bits n = elim (Bool-cases (leb n (2 ^ bits))) [
  | inl e ↦ (bits, rw e)
  | inr e ↦
      let (k, p) = next_power_of_two-pow fuel (suc bits) n in
      let double : 2 * 2 ^ bits ≡ 2 ^ suc bits = omega (arith, pow-suc 2 bits) in
      (k, rw (e, double) p)
]

pub bucket_count-pow : (cap : ℕ) → (k : ℕ) × (bucket_count cap ≡ 2 ^ k)
unfolding bucket_count
bucket_count-pow n =
    let (k, p) = next_power_of_two-pow 64 0 (n / slots) in
    elim (Bool-cases (leb (next_power_of_two 64 1 (n / slots)) 4)) [
      | inl e ↦ (2, rw (bucket_count, e))
      | inr e ↦ (k, rw (bucket_count, e) p)
    ]

pub pow_pos : (k : ℕ) → 1 ≤ 2 ^ k
pow_pos zero = omega arith
pow_pos (suc k) = omega (arith, pow_pos k, pow-suc 2 k)

module _ (xxh3 : Bytes → ℕ) where
  pub length-kick :
      (n i h : ℕ) (f : CuckooFilter) → length (kick n i h f).0.buckets ≡ length f.buckets
  unfolding kick
  length-kick zero i h f = refl
  length-kick (suc n) i h f = elim (Option-cases (place h (bucket_at f.buckets i))) [
    | inr (b, p) ↦ rw (kick, p) (length-set_at i b f.buckets)
    | inl p ↦ rw (kick, p) (length-kick n _ _ _ ∙ length-set_at i _ f.buckets)
  ]

  length-rehash_one :
      (mask fp : ℕ) (bs : List Bucket) → length (rehash_one xxh3 mask fp bs) ≡ length bs
  unfolding rehash_one
  length-rehash_one mask fp bs =
      let i1 = bit_and (xxh3 (to_le 2 fp)) mask in
      let first = set_at i1 (place_or_drop fp (bucket_at bs i1)) bs in
      elim (Bool-cases (has fp (bucket_at first i1))) [
        | inl e ↦ rw (rehash_one, e) (length-set_at i1 _ bs)
        | inr e ↦ rw (rehash_one, e) (length-set_at _ _ first ∙ length-set_at i1 _ bs)
      ]

  length-rehash :
      (mask : ℕ) (fps : List ℕ) (bs : List Bucket) → length (rehash xxh3 mask fps bs) ≡ length bs
  unfolding rehash
  length-rehash mask [] bs = refl
  length-rehash mask (fp ∷ fps) bs = length-rehash mask fps _ ∙ length-rehash_one mask fp bs

  pub length-grow :
      (f : CuckooFilter)
      → 0 < length f.buckets
      → ((grow xxh3 f).1 ≡ false) ⊎ (length f.buckets < length (grow xxh3 f).0.buckets)
  unfolding grow
  length-grow f some_buckets =
      let cur = length f.buckets in
      let full : (cur == 0) ≡ false = ground (arith, some_buckets) in
      elim (Bool-cases (leb max_buckets cur)) [
        | inl e ↦ inl (rw (grow, full, e))
        | inr e ↦ inr (
            rw (grow, full, e)
              (omega (
                arith,
                some_buckets,
                length-rehash (cur * 2 - 1) (fingerprints f.buckets) (no_buckets (cur * 2)),
                length-no_buckets (cur * 2),
              )))
      ]

  pub grow_refused : (f : CuckooFilter) → (grow xxh3 f).1 ≡ false → (grow xxh3 f).0 ≡ f
  unfolding grow
  grow_refused f h = elim (Bool-cases (length f.buckets == 0)) [
    | inl e ↦ rw (grow, e)
    | inr e ↦ elim (Bool-cases (leb max_buckets (length f.buckets))) [
      | inl g ↦ rw (grow, e, g)
      | inr g ↦ absurd (cc (rw (grow, e, g) at h))
    ]
  ]

  pub length-retry :
      (id : Bytes) (f : CuckooFilter) → length (retry xxh3 id f).0.buckets ≡ length f.buckets
  unfolding retry
  length-retry id f =
      elim (Option-cases
        (place (fingerprint xxh3 id) (bucket_at f.buckets (index_of xxh3 f.mask id)))) [
          | inl p ↦ rw (retry, p)
          | inr (b, p) ↦ rw (retry, p) (length-set_at _ b f.buckets)
        ]

  pub length-grow_le : (f : CuckooFilter) → length f.buckets ≤ length (grow xxh3 f).0.buckets
  length-grow_le f = elim (Bool-cases (length f.buckets == 0)) [
    | inl e ↦ omega (arith, (==_iff (length f.buckets) 0).0 e)
    | inr e ↦
        let some_buckets : 0 < length f.buckets = ground (arith, e) in
        elim (length-grow f some_buckets) [
          | inl stuck ↦ rw (grow_refused f stuck) (omega arith)
          | inr wider ↦ omega (arith, wider)
        ]
  ]
