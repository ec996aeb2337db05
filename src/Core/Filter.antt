-- ===== src/Core/Filter.antt =====
-- crates/core/src/filter.rs: the cuckoo filter. `xxh3` is the hash of the `xxhash_rust` crate, a
-- parameter. Locks and atomics are not modelled: a call is one step, and the occupancy is not
-- wrapped. An index out of range, a panic, would read an empty bucket.
pub mod Mask
pub mod Kicks
pub mod Width
pub mod Kept
use dlr.Prelude.{
  ℕ, zero, suc, ◌+◌, ◌-◌, ◌*◌, ◌/◌, ◌%◌, ◌^◌, List, [], ◌∷◌, ◌++◌, length, Option, none, some, Bool,
  true, false, ltb, leb, ◌==◌, if◌then◌else◌, set_at, get_or,
}
use Prim.Native.Nat.{bit_and, bit_xor}
use dlr.Core.Bytes.{Bytes, to_le}
use dlr.Core.Merkle.{replicate}

unfoldable pub golden64 : ℕ
golden64 = 0x9E3779B97F4A7C15

unfoldable pub slots : ℕ
slots = 4

-- The fingerprints of a bucket, 0 for an empty slot.
abbrev pub Bucket : Type 0
Bucket = List ℕ

unfoldable pub empty_bucket : Bucket
empty_bucket = replicate 4 0

abbrev pub no_buckets : ℕ → List Bucket
no_buckets zero = []
no_buckets (suc n) = empty_bucket ∷ no_buckets n

pub record CuckooFilter : Type 0 where
  pub buckets : List Bucket
  pub mask : ℕ
  pub count : ℕ
  pub saturated : Bool

-- The first power of two from `p` on that is `n` at least, in so many doublings.
unfoldable pub next_power_of_two : ℕ → ℕ → ℕ → ℕ
next_power_of_two zero p n = p
next_power_of_two (suc fuel) p n =
    let rest = next_power_of_two fuel (2 * p) n in if leb n p then p else rest

-- `(cap / SLOTS).next_power_of_two().max(4)`
unfoldable pub bucket_count : ℕ → ℕ
bucket_count cap = let n = next_power_of_two 64 1 (cap / slots) in if leb n 4 then 4 else n

unfoldable pub with_capacity : ℕ → CuckooFilter
with_capacity cap = record {
  buckets = no_buckets (bucket_count cap);
  mask = bucket_count cap - 1;
  count = 0;
  saturated = false;
}

unfoldable pub alt_index : ℕ → ℕ → ℕ → ℕ
alt_index mask i fp = bit_and (bit_xor i (fp * golden64 % 2 ^ 64)) mask

-- The first empty slot takes the fingerprint, if there is one.
unfoldable pub place : ℕ → Bucket → Option Bucket
place fp [] = none
place fp (s ∷ ss) =
    let rest = place fp ss in
    if s == 0 then some (fp ∷ ss) else elim rest [ none ↦ none | some b ↦ some (s ∷ b) ]

unfoldable pub has : ℕ → Bucket → Bool
has fp [] = false
has fp (s ∷ ss) = let rest = has fp ss in if s == fp then true else rest

abbrev pub bucket_at : List Bucket → ℕ → Bucket
bucket_at buckets i = get_or [] buckets i

-- The loop of so many kicks: whether a slot was found.
unfoldable pub kick : ℕ → ℕ → ℕ → CuckooFilter → CuckooFilter × Bool
kick zero i fp f = (f, false)
kick (suc n) i fp f =
    let bucket = bucket_at f.buckets i in
    let s = fp % slots in
    let evicted = get_or 0 bucket s in
    let rest =
      kick n (alt_index f.mask i evicted) evicted
        (record f { buckets = set_at i (set_at s fp bucket) f.buckets }) in
    elim (place fp bucket) [
      | some b ↦ (record f { buckets = set_at i b f.buckets; count = f.count + 1 }, true)
      | none ↦ rest
    ]

unfoldable pub kicks : ℕ
kicks = 500

-- The occupied slots, in order.
unfoldable pub occupied : Bucket → List ℕ
occupied [] = []
occupied (s ∷ ss) = let rest = occupied ss in if s == 0 then rest else s ∷ rest

unfoldable pub fingerprints : List Bucket → List ℕ
fingerprints [] = []
fingerprints (b ∷ bs) = occupied b ++ fingerprints bs

-- A bucket as it is when it has no room.
unfoldable pub place_or_drop : ℕ → Bucket → Bucket
place_or_drop fp b = elim (place fp b) [ none ↦ b | some b' ↦ b' ]

unfoldable pub max_buckets : ℕ
max_buckets = 2 ^ 24

module _ (xxh3 : Bytes → ℕ) where
  -- `(h as Fp).max(1)`
  unfoldable pub fingerprint : Bytes → ℕ
  fingerprint id = let fp = xxh3 id % 2 ^ 16 in if fp == 0 then 1 else fp

  unfoldable pub index_of : ℕ → Bytes → ℕ
  index_of mask id = bit_and (xxh3 id) mask

  -- A fingerprint goes where the hash of its own two bytes says.
  unfoldable pub rehash_one : ℕ → ℕ → List Bucket → List Bucket
  rehash_one mask fp buckets =
      let i1 = bit_and (xxh3 (to_le 2 fp)) mask in
      let first = set_at i1 (place_or_drop fp (bucket_at buckets i1)) buckets in
      let i2 = bit_and (bit_xor i1 (bit_and (fp * golden64 % 2 ^ 64) mask)) mask in
      if has fp (bucket_at first i1)
      then first
      else set_at i2 (place_or_drop fp (bucket_at first i2)) first

  unfoldable pub rehash : ℕ → List ℕ → List Bucket → List Bucket
  rehash mask [] buckets = buckets
  rehash mask (fp ∷ fps) buckets = rehash mask fps (rehash_one mask fp buckets)

  unfoldable pub grow : CuckooFilter → CuckooFilter × Bool
  grow f =
      let cur = length f.buckets in
      let new_nbuckets = cur * 2 in
      let new_buckets =
        rehash (new_nbuckets - 1) (fingerprints f.buckets) (no_buckets new_nbuckets) in
      if cur == 0
      then (f, false)
      else if leb max_buckets cur
      then (f, false)
      else (record f { buckets = new_buckets; mask = new_nbuckets - 1 }, true)

  -- The one try behind a growth.
  unfoldable pub retry : Bytes → CuckooFilter → CuckooFilter × Bool
  retry id f =
      let i2 = index_of f.mask id in
      elim (place (fingerprint id) (bucket_at f.buckets i2)) [
        | some b ↦ (record f { buckets = set_at i2 b f.buckets; count = f.count + 1 }, true)
        | none ↦ (record f { saturated = true }, false)
      ]

  unfoldable pub insert_id : Bytes → CuckooFilter → CuckooFilter × Bool
  insert_id id f =
      let (kicked, stored) = kick kicks (index_of f.mask id) (fingerprint id) f in
      let (grown, grew) = grow kicked in
      if f.saturated
      then (f, false)
      else if stored
      then (kicked, true)
      else if grew
      then retry id grown
      else (record grown { saturated = true }, false)

  unfoldable pub contains_id : Bytes → CuckooFilter → Bool
  contains_id id f =
      let i1 = index_of f.mask id in
      let fp = fingerprint id in
      if f.saturated
      then true
      else if has fp (bucket_at f.buckets i1)
      then true
      else has fp (bucket_at f.buckets (alt_index f.mask i1 fp))

-- `clear`: the table keeps its width.
unfoldable pub clear : CuckooFilter → CuckooFilter
clear f = record f { buckets = no_buckets (length f.buckets); count = 0; saturated = false }
