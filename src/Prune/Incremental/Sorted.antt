-- ===== src/Prune/Incremental/Sorted.antt =====
-- The survivors as one list, in the order of their keys: what the two maps of the pruner stand for.
use dlr.Prelude.{
  ℕ, ◌+◌, ◌≤◌, ◌<◌, ◌≡◌, ◌⊎◌, inl, inr, refl, ap, ◌∙◌, arith, List, [], ◌∷◌, map, All, Option, none,
  some, false, ◌==◌, if◌then◌else◌, ◌&&◌, bytes_eq, bytes_eq_iff, bytes_key, Bool-cases,
}
use dlr.Core.Block.{BlockId}
use dlr.Prune.Incremental.{Survivor, Scored, remove_ordered, before}

pub record Entry : Type 0 where
  pub id : BlockId
  pub score : ℕ
  pub seq : ℕ
  pub size : ℕ

abbrev pub survivor : Entry → Survivor
survivor e = record { score = e.score; seq = e.seq; id = e.id }

abbrev pub scored : Entry → Scored
scored e = record { score = e.score; seq = e.seq; size = e.size }

abbrev pub sizes : List Entry → ℕ
sizes [] = 0
sizes (e ∷ es) = e.size + sizes es

-- The entry of an id, as the index has it.
abbrev pub find : BlockId → List Entry → Option Scored
find id [] = none
find id (e ∷ es) = let rest = find id es in if bytes_eq e.id id then some (scored e) else rest

abbrev pub without : BlockId → List Entry → List Entry
without id [] = []
without id (e ∷ es) = let rest = without id es in if bytes_eq e.id id then rest else e ∷ rest

-- The order of the keys.
abbrev pub Before : Entry → Entry → Type 0
Before a b = (a.score < b.score) ⊎ ((a.score ≡ b.score) × (a.seq < b.seq))

abbrev pub Sorted : List Entry → Type 0
Sorted [] = Unit
Sorted (e ∷ es) = All (Before e) es × Sorted es

abbrev pub Distinct : List Entry → Type 0
Distinct [] = Unit
Distinct (e ∷ es) = (find e.id es ≡ none) × Distinct es

abbrev pub Older : ℕ → List Entry → Type 0
Older clock es = All (λ e. e.seq ≤ clock) es

abbrev pub place_entry : Entry → List Entry → List Entry
place_entry e [] = e ∷ []
place_entry e (y ∷ ys) =
    let rest = place_entry e ys in if before (survivor e) (survivor y) then e ∷ y ∷ ys else y ∷ rest

-- Taking an id out.

pub find-without :
    (id j : BlockId) (es : List Entry) → bytes_eq id j ≡ false → find j (without id es) ≡ find j es
find-without id j [] h = refl
find-without id j (e ∷ es) h = elim (Bool-cases (bytes_eq e.id id)) [
  | inl q ↦
      let other : bytes_eq e.id j ≡ false = rw ((bytes_eq_iff e.id id).0 q) h in
      rw (q, other) (find-without id j es h)
  | inr q ↦ elim (Bool-cases (bytes_eq e.id j)) [
    | inl r ↦ rw (q, r)
    | inr r ↦ rw (q, r) (find-without id j es h)
  ]
]

pub find-without_self : (id : BlockId) (es : List Entry) → find id (without id es) ≡ none
find-without_self id [] = refl
find-without_self id (e ∷ es) = elim (Bool-cases (bytes_eq e.id id)) [
  | inl q ↦ rw q (find-without_self id es)
  | inr q ↦ rw (q, q) (find-without_self id es)
]

pub without-none : (id : BlockId) (es : List Entry) → find id es ≡ none → without id es ≡ es
without-none id [] h = refl
without-none id (e ∷ es) h = elim (Bool-cases (bytes_eq e.id id)) [
  | inl q ↦ absurd (cc (rw q at h))
  | inr q ↦ rw q (ap (λ (l : List Entry). e ∷ l) (without-none id es (rw q at h)))
]

pub All-without :
    (P : Entry → Type 0) (id : BlockId) (es : List Entry) → All P es → All P (without id es)
All-without P id [] h = tt
All-without P id (e ∷ es) h = elim (Bool-cases (bytes_eq e.id id)) [
  | inl q ↦ rw q (All-without P id es h.1)
  | inr q ↦ rw q (h.0, All-without P id es h.1)
]

pub without-Sorted : (id : BlockId) (es : List Entry) → Sorted es → Sorted (without id es)
without-Sorted id [] h = tt
without-Sorted id (e ∷ es) (first, rest) = elim (Bool-cases (bytes_eq e.id id)) [
  | inl q ↦ rw q (without-Sorted id es rest)
  | inr q ↦ rw q (All-without (Before e) id es first, without-Sorted id es rest)
]

find-without-none :
    (id j : BlockId) (es : List Entry) → find j es ≡ none → find j (without id es) ≡ none
find-without-none id j es h = elim (Bool-cases (bytes_eq id j)) [
  | inl q ↦ rw ((bytes_eq_iff id j).0 q) (find-without_self j es)
  | inr q ↦ find-without id j es q ∙ h
]

pub without-Distinct : (id : BlockId) (es : List Entry) → Distinct es → Distinct (without id es)
without-Distinct id [] h = tt
without-Distinct id (e ∷ es) (new, rest) = elim (Bool-cases (bytes_eq e.id id)) [
  | inl q ↦ rw q (without-Distinct id es rest)
  | inr q ↦ rw q (find-without-none id e.id es new, without-Distinct id es rest)
]

-- The key of an entry behind a smaller one is another.
later-other :
    (e : Entry) (es : List Entry) (id : BlockId) (found : Scored)
    → All (Before e) es
    → find id es ≡ some found
    → ((e.score == found.score) && (e.seq == found.seq)) ≡ false
later-other e [] id found h k = absurd (cc)
later-other e (y ∷ es) id found (b, h) k = elim (Bool-cases (bytes_eq y.id id)) [
  | inl q ↦ let same : scored y ≡ found = cc (rw q at k) in rw (← same) (ground (arith, b))
  | inr q ↦ later-other e es id found h (rw q at k)
]

pub remove_ordered-without :
    (id : BlockId) (es : List Entry) (found : Scored)
    → Sorted es
    → Distinct es
    → find id es ≡ some found
    → (remove_ordered found.score found.seq (map survivor es) ≡ map survivor (without id es))
      × (sizes (without id es) + found.size ≡ sizes es)
unfolding remove_ordered
remove_ordered-without id [] found s d h = absurd (cc)
remove_ordered-without id (e ∷ es) found (first, s) (new, d) h =
    elim (Bool-cases (bytes_eq e.id id)) [
      | inl q ↦
          let same : scored e ≡ found = cc (rw q at h) in
          let gone : without id es ≡ es =
            without-none id es (rw ((bytes_eq_iff e.id id).0 q) at new) in
          rw (q, gone, ← same) (ground arith, omega arith)
      | inr q ↦
          let h' : find id es ≡ some found = rw q at h in
          let (r, n) = remove_ordered-without id es found s d h' in
          let other = later-other e es id found first h' in
          rw (q, other) (ap (λ (l : List Survivor). survivor e ∷ l) r, omega (arith, n))
    ]
