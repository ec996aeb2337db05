-- ===== src/Prune/Incremental/Refines.antt =====
-- crates/prune/src/incremental.rs: the two maps, the size and the clock of a pruner stand for one list
-- of survivors.
use dlr.Prelude.{
  ℕ, ◌^◌, ◌+◌, ◌%◌, ◌≤◌, ◌<◌, ◌≡◌, inl, inr, refl, sym, ◌∙◌, arith, List, map, none, some, false,
  bytes_eq, bytes_key, Bool-cases, Option-cases,
}
use dlr.Prelude.Assoc.{lookup, lookup-insert}
use dlr.Core.Block.{BlockId}
use dlr.Prune.Incremental.{IncrementalPruner, forget, add_block}
use dlr.Prune.Incremental.Sorted.{
  Entry, survivor, scored, sizes, find, without, Sorted, Distinct, Older, place_entry, find-without,
  find-without_self, without-none, All-without, without-Sorted, without-Distinct,
  remove_ordered-without,
}
use dlr.Prune.Incremental.Placed.{
  insert_ordered-place_entry, place_entry-Older, place_entry-Sorted, place_entry-Distinct,
  find-place_entry, sizes-place_entry,
}

pub record Represents (p : IncrementalPruner) (es : List Entry) : Type 0 where
  pub in_order : p.ordered ≡ map survivor es
  pub indexed : (id : BlockId) → lookup id p.index ≡ find id es
  pub sized : p.total_size ≡ sizes es
  pub sorted : Sorted es
  pub distinct : Distinct es
  pub older : Older p.clock es
  pub bounded : sizes es < 2 ^ 64

abbrev pub entry_of : BlockId → ℕ → IncrementalPruner → Entry
entry_of id size p =
    let seq = p.clock + 1 in record { id = id; score = p.scorer seq size; seq = seq; size = size }

-- A pruner whose index may still have the id that is taken out.
pub record Forgot (id : BlockId) (p : IncrementalPruner) (es : List Entry) : Type 0 where
  in_order : p.ordered ≡ map survivor es
  indexed : (j : BlockId) → bytes_eq id j ≡ false → lookup j p.index ≡ find j es
  absent : find id es ≡ none
  sized : p.total_size ≡ sizes es
  sorted : Sorted es
  distinct : Distinct es
  older : Older p.clock es
  bounded : sizes es < 2 ^ 64

pub forget-Forgot :
    (id : BlockId) (p : IncrementalPruner) (es : List Entry)
    → Represents p es
    → Forgot id (forget id p) (without id es)
unfolding forget
forget-Forgot id p es r = elim (Option-cases (find id es)) [
  | inl none_there ↦
      let gone : without id es ≡ es = without-none id es none_there in
      let q : lookup id p.index ≡ none = r.indexed id ∙ none_there in
      rw (forget, q, gone)
        (record {
          in_order = r.in_order;
          indexed = λ j d. r.indexed j;
          absent = none_there;
          sized = r.sized;
          sorted = r.sorted;
          distinct = r.distinct;
          older = r.older;
          bounded = r.bounded;
        })
  | inr (found, there) ↦
      let q : lookup id p.index ≡ some found = r.indexed id ∙ there in
      let (o, n) = remove_ordered-without id es found r.sorted r.distinct there in
      rw (forget, q)
        (record {
          in_order = rw r.in_order o;
          indexed = λ j d. r.indexed j ∙ sym (find-without id j es d);
          absent = find-without_self id es;
          sized = omega (arith, n, r.sized, r.bounded);
          sorted = without-Sorted id es r.sorted;
          distinct = without-Distinct id es r.distinct;
          older = All-without (λ e. e.seq ≤ p.clock) id es r.older;
          bounded = omega (arith, n, r.bounded);
        })
]

pub same_settings :
    (id : BlockId) (p : IncrementalPruner)
    → ((forget id p).clock ≡ p.clock)
      × ((forget id p).scorer ≡ p.scorer)
      × ((forget id p).budget ≡ p.budget)
unfolding forget
same_settings id p = elim (Option-cases (lookup id p.index)) [
  | inl q ↦ rw (forget, q) (refl, refl, refl)
  | inr (e, q) ↦ rw (forget, q) (refl, refl, refl)
]

pub add_block-Represents :
    (id : BlockId) (size : ℕ) (p : IncrementalPruner) (es : List Entry)
    → Forgot id p es
    → sizes es + size < 2 ^ 64
    → p.clock + 1 < 2 ^ 64
    → Represents (add_block id size p) (place_entry (entry_of id size p) es)
unfolding add_block
add_block-Represents id size p es r fits early =
    let e = entry_of id size p in
    let newest : p.clock < e.seq = omega arith in
    let tick : (p.clock + 1) % 2 ^ 64 ≡ p.clock + 1 = omega (arith, early) in
    rw (add_block, tick)
      (record {
        in_order = rw r.in_order (insert_ordered-place_entry e p.clock newest es r.older);
        indexed = λ j. elim (Bool-cases (bytes_eq id j)) [
          | inl q ↦ rw (
            lookup-insert id j (scored e) p.index,
            find-place_entry e p.clock newest es j r.absent,
            q,
          )
          | inr q ↦
              rw
                (
                  lookup-insert id j (scored e) p.index,
                  find-place_entry e p.clock newest es j r.absent,
                  q,
                )
                (r.indexed j q)
        ];
        sized = omega (arith, r.sized, fits, sizes-place_entry e es);
        sorted = place_entry-Sorted e p.clock newest es r.older r.sorted;
        distinct = place_entry-Distinct e p.clock newest es r.absent r.distinct;
        older = place_entry-Older e p.clock newest es r.older;
        bounded = omega (arith, fits, sizes-place_entry e es);
      })
