-- ===== src/Tests/Indexes.antt =====
-- A Mountain Range over five ids, and a filter in which ids evict one another.
use dlr.Prelude.{ℕ, ◌+◌, ◌<◌, ◌≡◌, ◌⊎◌, refl, List, [], ◌∷◌, length, get_elem?, All, some, true}
use dlr.Core.Bytes.{Bytes}
use dlr.Core.Block.{BlockId}
use dlr.Core.Mmr.{new_mmr, peaks, mmr_root, verify_inclusion}
use dlr.Core.Mmr.Perfect.{IsPerfect, forest, logged}
use dlr.Core.Mmr.Refines.{append_all, tops, top_root, Rising, append_all-Refines}
use dlr.Core.Mmr.Arena.{InArena}
use dlr.Core.Mmr.Hashed.{Clash, checked_inputs, forest_inputs}
use dlr.Core.Mmr.Inclusion.{verify_inclusion-appended, verify_inclusion-only}
use dlr.Core.Filter.{
  with_capacity, contains_id, insert_id, kick, kicks, place, has, alt_index, grow, fingerprint,
  index_of, golden64, slots, max_buckets, bucket_count, next_power_of_two, empty_bucket, retry,
}
use dlr.Core.Filter.Kept.{insert_all, insert_all-Contained, with_capacity-IsFilter}
use dlr.Prelude.{set_at}
use dlr.Tests.{toy_blake3}

abbrev five_ids : List BlockId
five_ids = (1 ∷ []) ∷ (2 ∷ []) ∷ (3 ∷ []) ∷ (4 ∷ []) ∷ (5 ∷ []) ∷ []

append_all-Refines_example :
    let m = append_all toy_blake3 five_ids new_mmr in
    let ps = forest five_ids [] in
    (peaks m.arena m.trees ≡ tops toy_blake3 ps)
    × (mmr_root toy_blake3 m ≡ top_root toy_blake3 ps)
    × (m.leaves ≡ length five_ids)
    × (logged ps ≡ five_ids)
    × All IsPerfect ps
    × Rising 0 ps
    × InArena m
append_all-Refines_example = append_all-Refines toy_blake3 five_ids

verify_inclusion-appended_example :
    verify_inclusion toy_blake3 2 (3 ∷ []) (append_all toy_blake3 five_ids new_mmr) ≡ some true
verify_inclusion-appended_example = verify_inclusion-appended toy_blake3 five_ids 2 (3 ∷ []) refl

verify_inclusion-only_example :
    (2 < length five_ids)
    × ((get_elem? five_ids 2 ≡ some (3 ∷ []))
        ⊎ Clash toy_blake3
            (checked_inputs toy_blake3 2 (3 ∷ []) (append_all toy_blake3 five_ids new_mmr))
            (forest_inputs toy_blake3 (forest five_ids [])))
verify_inclusion-only_example =
    verify_inclusion-only toy_blake3 five_ids 2 (3 ∷ []) verify_inclusion-appended_example

-- Six ids of one first bucket, of which the other buckets take two.
abbrev toy_xxh3 : Bytes → ℕ
toy_xxh3 [] = 0
toy_xxh3 (b ∷ bs) = b + toy_xxh3 bs

abbrev crowded : List Bytes
crowded = (1 ∷ []) ∷ (5 ∷ []) ∷ (9 ∷ []) ∷ (13 ∷ []) ∷ (17 ∷ []) ∷ (21 ∷ []) ∷ []

crowded_width :
    length (insert_all toy_xxh3 crowded (with_capacity 8)).buckets
    ≡ length (with_capacity 8).buckets
unfolding insert_id with_capacity kick kicks place alt_index grow fingerprint index_of golden64
    slots max_buckets bucket_count next_power_of_two empty_bucket retry set_at has
crowded_width = refl

insert_all-Contained_example :
    All
      (λ id. contains_id toy_xxh3 id (insert_all toy_xxh3 crowded (with_capacity 8)) ≡ true)
      crowded
    × ((x : Bytes)
        → contains_id toy_xxh3 x (with_capacity 8) ≡ true
        → contains_id toy_xxh3 x (insert_all toy_xxh3 crowded (with_capacity 8)) ≡ true)
insert_all-Contained_example =
    insert_all-Contained toy_xxh3 crowded (with_capacity 8) (with_capacity-IsFilter 8) crowded_width
