-- ===== src/Prune/Incremental/Placed.antt =====
-- A new entry among the survivors.
use dlr.Prelude.{
  All-weaken, ℕ, suc, ◌+◌, ◌≤◌, ◌<◌, ◌≡◌, ◌≢◌, inl, inr, refl, sym, ap, ◌∙◌, arith, List, [], ◌∷◌,
  length, map, All, none, some, true, false, ltb, ◌==◌, if◌then◌else◌, bytes_eq, bytes_eq_iff,
  Bool-cases,
}
use dlr.Core.Block.{BlockId}
use dlr.Prune.Incremental.{Survivor, insert_ordered, before, same_key}
use dlr.Prune.Incremental.Sorted.{
  Entry, survivor, scored, sizes, find, Before, Sorted, Distinct, Older, place_entry,
}

pub bytes_eq-apart : (a b : BlockId) → bytes_eq a b ≡ false → a ≢ b
bytes_eq-apart a b h p = cc ((bytes_eq_iff a b).1 p, h)

before-Before : (a b : Entry) → before (survivor a) (survivor b) ≡ true → Before a b
unfolding before
before-Before a b h = elim (Bool-cases (ltb a.score b.score)) [
  | inl q ↦ inl (ground (arith, q))
  | inr q ↦ inr (ground (arith, h, q))
]

not_before-Before :
    (a b : Entry) → before (survivor a) (survivor b) ≡ false → b.seq < a.seq → Before b a
unfolding before
not_before-Before a b h late = elim (Bool-cases (b.score == a.score)) [
  | inl q ↦ inr (ground (arith, q), late)
  | inr q ↦ inl (ground (arith, h, q))
]

module _ (e : Entry) (clock : ℕ) (newest : clock < e.seq) where
  pub insert_ordered-place_entry :
      (es : List Entry)
      → Older clock es
      → insert_ordered (survivor e) (map survivor es) ≡ map survivor (place_entry e es)
  unfolding insert_ordered same_key
  insert_ordered-place_entry [] h = refl
  insert_ordered-place_entry (y ∷ ys) (old, h) =
      elim (Bool-cases (before (survivor e) (survivor y))) [
        | inl q ↦ rw q
        | inr q ↦
            let other : same_key (survivor e) (survivor y) ≡ false = ground (arith, newest, old) in
            rw (q, other)
              (ap (λ (l : List Survivor). survivor y ∷ l) (insert_ordered-place_entry ys h))
      ]

  All-place_entry :
      (P : Entry → Type 0) (es : List Entry) → P e → All P es → All P (place_entry e es)
  All-place_entry P [] h k = (h, tt)
  All-place_entry P (y ∷ ys) h k = elim (Bool-cases (before (survivor e) (survivor y))) [
    | inl q ↦ rw q (h, k)
    | inr q ↦ rw q (k.0, All-place_entry P ys h k.1)
  ]

  pub place_entry-Older : (es : List Entry) → Older clock es → Older e.seq (place_entry e es)
  place_entry-Older es h =
      All-place_entry (λ y. y.seq ≤ e.seq) es (omega arith)
        (All-weaken (λ y. y.seq ≤ clock) (λ y. y.seq ≤ e.seq) es (λ y l. omega (arith, l, newest))
          h)

  Before-trans : (a b c : Entry) → Before a b → Before b c → Before a c
  Before-trans a b c (inl p) (inl q) = inl (omega (arith, p, q))
  Before-trans a b c (inl p) (inr (q, r)) = inl (omega (arith, p, q))
  Before-trans a b c (inr (p, s)) (inl q) = inl (omega (arith, p, q))
  Before-trans a b c (inr (p, s)) (inr (q, r)) = inr (omega (arith, p, q), omega (arith, s, r))

  pub place_entry-Sorted :
      (es : List Entry) → Older clock es → Sorted es → Sorted (place_entry e es)
  place_entry-Sorted [] h k = (tt, tt)
  place_entry-Sorted (y ∷ ys) (old, h) (first, k) =
      elim (Bool-cases (before (survivor e) (survivor y))) [
        | inl q ↦
            let b = before-Before e y q in
            rw q (
              (b, All-weaken (Before y) (Before e) ys (λ z l. Before-trans e y z b l) first),
              (first, k),
            )
        | inr q ↦ rw q (
          All-place_entry (Before y) ys (not_before-Before e y q (omega (arith, old, newest)))
              first,
          place_entry-Sorted ys h k,
        )
      ]

  pub find-place_entry :
      (es : List Entry) (j : BlockId)
      → find e.id es ≡ none
      → find j (place_entry e es) ≡ (if bytes_eq e.id j then some (scored e) else find j es)
  find-place_entry [] j h = refl
  find-place_entry (y ∷ ys) j h = elim (Bool-cases (before (survivor e) (survivor y))) [
    | inl q ↦ rw q
    | inr q ↦ elim (Bool-cases (bytes_eq y.id e.id)) [
      | inl r ↦ absurd (cc (rw r at h))
      | inr r ↦ elim (Bool-cases (bytes_eq y.id j)) [
        | inl s ↦
            let other : bytes_eq e.id j ≡ false = elim (Bool-cases (bytes_eq e.id j)) [
              | inl t ↦ absurd (
                  bytes_eq-apart y.id e.id r
                    ((bytes_eq_iff y.id j).0 s ∙ sym ((bytes_eq_iff e.id j).0 t)))
              | inr t ↦ t
            ] in
            rw (q, s, other)
        | inr s ↦ rw (q, s) (find-place_entry ys j (rw r at h))
      ]
    ]
  ]

  pub place_entry-Distinct :
      (es : List Entry) → find e.id es ≡ none → Distinct es → Distinct (place_entry e es)
  place_entry-Distinct [] h d = (refl, tt)
  place_entry-Distinct (y ∷ ys) h (new, d) = elim (Bool-cases (bytes_eq y.id e.id)) [
    | inl r ↦ absurd (cc (rw r at h))
    | inr r ↦
        let h' : find e.id ys ≡ none = rw r at h in
        elim (Bool-cases (before (survivor e) (survivor y))) [
          | inl q ↦ rw q (h, (new, d))
          | inr q ↦
              let other : bytes_eq e.id y.id ≡ false = elim (Bool-cases (bytes_eq e.id y.id)) [
                | inl t ↦ absurd (bytes_eq-apart y.id e.id r (sym ((bytes_eq_iff e.id y.id).0 t)))
                | inr t ↦ t
              ] in
              rw q (find-place_entry ys y.id h' ∙ rw other new, place_entry-Distinct ys h' d)
        ]
  ]

pub sizes-place_entry : (e : Entry) (es : List Entry) → sizes (place_entry e es) ≡ e.size + sizes es
sizes-place_entry e [] = refl
sizes-place_entry e (y ∷ ys) = elim (Bool-cases (before (survivor e) (survivor y))) [
  | inl q ↦ rw q
  | inr q ↦ rw q (omega (arith, sizes-place_entry e ys))
]

pub length-place_entry : (e : Entry) (es : List Entry) → length (place_entry e es) ≡ suc (length es)
length-place_entry e [] = refl
length-place_entry e (y ∷ ys) = elim (Bool-cases (before (survivor e) (survivor y))) [
  | inl q ↦ rw q
  | inr q ↦ rw q (ap suc (length-place_entry e ys))
]
