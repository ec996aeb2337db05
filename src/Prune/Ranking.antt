-- ===== src/Prune/Ranking.antt =====
-- crates/prune/src/lib.rs: the ranking of the baseline policy, and the order of the kept indices.
use dlr.Prelude.{
  All-weaken, ℕ, ◌+◌, ◌≤◌, ◌<◌, ◌≡◌, inl, inr, refl, ap, ◌∙◌, arith, List, [], ◌∷◌, length, All,
  true, false, ltb, leb, ◌==◌, if◌then◌else◌, ◌&&◌, ◌||◌, Bool-cases,
}
use dlr.Core.Block.{Block}
use dlr.Prune.{insert_scored, insert_index, sort_indices, rank}

abbrev pub times : ℕ → List ℕ → ℕ
times x [] = 0
times x (y ∷ ys) = (if y == x then 1 else 0) + times x ys

abbrev pub firsts : List (ℕ × ℕ) → List ℕ
firsts [] = []
firsts ((i, s) ∷ r) = i ∷ firsts r

-- Each index is smaller than all behind it.
abbrev pub Ascending : List ℕ → Type 0
Ascending [] = Unit
Ascending (i ∷ is) = All (λ j. i < j) is × Ascending is

-- Sorting the kept indices.

times-insert_index : (x i : ℕ) (js : List ℕ) → times x (insert_index i js) ≡ times x (i ∷ js)
unfolding insert_index
times-insert_index x i [] = refl
times-insert_index x i (j ∷ js) = elim (Bool-cases (leb i j)) [
  | inl q ↦ rw q
  | inr q ↦ rw q (omega (arith, times-insert_index x i js))
]

pub times-sort_indices : (x : ℕ) (is : List ℕ) → times x (sort_indices is) ≡ times x is
unfolding sort_indices
times-sort_indices x [] = refl
times-sort_indices x (i ∷ is) =
    times-insert_index x i (sort_indices is)
    ∙ ap (λ n. (if i == x then 1 else 0) + n) (times-sort_indices x is)

All-insert_index :
    (P : ℕ → Type 0) (i : ℕ) (js : List ℕ) → P i → All P js → All P (insert_index i js)
unfolding insert_index
All-insert_index P i [] h k = (h, tt)
All-insert_index P i (j ∷ js) h k = elim (Bool-cases (leb i j)) [
  | inl q ↦ rw q (h, k)
  | inr q ↦ rw q (k.0, All-insert_index P i js h k.1)
]

pub All-sort_indices : (P : ℕ → Type 0) (is : List ℕ) → All P is → All P (sort_indices is)
unfolding sort_indices
All-sort_indices P [] h = tt
All-sort_indices P (i ∷ is) h =
    All-insert_index P i (sort_indices is) h.0 (All-sort_indices P is h.1)

insert_index-Ascending :
    (i : ℕ) (js : List ℕ) → times i js ≡ 0 → Ascending js → Ascending (insert_index i js)
unfolding insert_index
insert_index-Ascending i [] new a = (tt, tt)
insert_index-Ascending i (j ∷ js) new (first, a) = elim (Bool-cases (leb i j)) [
  | inl q ↦
      let less : i < j = ground (arith, q, new) in
      rw q (
        (less, All-weaken (λ k. j < k) (λ k. i < k) js (λ k l. omega (arith, less, l)) first),
        (first, a),
      )
  | inr q ↦
      let rest : times i js ≡ 0 = omega (arith, new) in
      rw q (
        All-insert_index (λ k. j < k) i js (ground (arith, q)) first,
        insert_index-Ascending i js rest a,
      )
]

pub sort_indices-Ascending :
    (is : List ℕ) → ((x : ℕ) → times x is ≤ 1) → Ascending (sort_indices is)
unfolding sort_indices
sort_indices-Ascending [] h = tt
sort_indices-Ascending (i ∷ is) h =
    let self : (i == i) ≡ true = ground arith in
    let once : times i is ≡ 0 = omega (arith, rw self at (h i)) in
    insert_index-Ascending i (sort_indices is) (times-sort_indices i is ∙ once)
      (sort_indices-Ascending is λ x. omega (arith, h x))

-- Ranking keeps the indices.

times-insert_scored :
    (x i s : ℕ) (r : List (ℕ × ℕ)) → times x (firsts (insert_scored i s r)) ≡ times x (i ∷ firsts r)
unfolding insert_scored
times-insert_scored x i s [] = refl
times-insert_scored x i s ((j, o) ∷ r) = elim (Bool-cases (ltb o s || ((o == s) && ltb i j))) [
  | inl q ↦ rw q
  | inr q ↦ rw q (omega (arith, times-insert_scored x i s r))
]

All-insert_scored :
    (P : ℕ → Type 0) (i s : ℕ) (r : List (ℕ × ℕ))
    → P i
    → All P (firsts r)
    → All P (firsts (insert_scored i s r))
unfolding insert_scored
All-insert_scored P i s [] h k = (h, tt)
All-insert_scored P i s ((j, o) ∷ r) h k = elim (Bool-cases (ltb o s || ((o == s) && ltb i j))) [
  | inl q ↦ rw q (h, k)
  | inr q ↦ rw q (k.0, All-insert_scored P i s r h k.1)
]

times-absent : (x : ℕ) (xs : List ℕ) → All (λ y. x < y) xs → times x xs ≡ 0
times-absent x [] h = refl
times-absent x (y ∷ ys) (l, h) =
    let other : (y == x) ≡ false = ground (arith, l) in
    rw other (omega (arith, times-absent x ys h))

module _ (score : ℕ → ℕ → Block → ℕ) where
  pub All-rank :
      (n i : ℕ) (bs : List Block)
      → All (λ j. (i ≤ j) × (j < i + length bs)) (firsts (rank score n i bs))
  unfolding rank
  All-rank n i [] = tt
  All-rank n i (b ∷ bs) =
      All-insert_scored _ i (score n i b) (rank score n (i + 1) bs) (omega arith, omega arith)
        (All-weaken _ _ _ (λ j h. (omega (arith, h.0), omega (arith, h.1))) (All-rank n (i + 1) bs))

  pub times-rank : (n i : ℕ) (bs : List Block) (x : ℕ) → times x (firsts (rank score n i bs)) ≤ 1
  unfolding rank
  times-rank n i [] x = omega arith
  times-rank n i (b ∷ bs) x =
      let rest = rank score n (i + 1) bs in
      let one = times-insert_scored x i (score n i b) rest in
      elim (Bool-cases (i == x)) [
        | inl q ↦
            let here : i ≡ x = ground (arith, q) in
            let none_later : times x (firsts rest) ≡ 0 = times-absent x (firsts rest) (
              All-weaken _ _ (firsts rest) (λ j h. omega (arith, h.0, here))
                (All-rank n (i + 1) bs)) in
            omega (arith, rw q at one, none_later)
        | inr q ↦ omega (arith, rw q at one, times-rank n (i + 1) bs x)
      ]
