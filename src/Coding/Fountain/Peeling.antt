-- ===== src/Coding/Fountain/Peeling.antt =====
-- How many rounds the peeling takes.
use dlr.Prelude.{
  set_at, get_or, ℕ, zero, suc, ◌+◌, ◌-◌, ◌≤◌, ◌<◌, ◌≡◌, ◌⊎◌, refl, ap, arith, List, [], ◌∷◌,
  length, map, ltb, ◌==◌, if◌then◌else◌, Bool-cases, Option-cases, inl, inr, length-append, nat_eq,
}
use dlr.Prelude.Assoc.{lookup}
use dlr.Core.Bytes.{Bytes}
use dlr.Coding.Fountain.{
  ParsedSym, Peel, no_sym, degree_one, degree_of, start_peel, find_target, ripple_one, ripple,
  reveal, peel,
}

-- The symbols that still may get into the queue: those with a degree of 2 or more.
abbrev heavy : ℕ → ℕ
heavy d = if ltb 1 d then 1 else 0

abbrev waiting : List ℕ → ℕ
waiting [] = 0
waiting (d ∷ ds) = heavy d + waiting ds

abbrev measure : Peel → ℕ
measure p = length p.queue + waiting p.degree

waiting-set_at :
    (i y : ℕ) (ds : List ℕ)
    → 0 < get_or 0 ds i
    → waiting (set_at i y ds) + heavy (get_or 0 ds i) ≡ waiting ds + heavy y
unfolding set_at
waiting-set_at i y [] h = absurd (omega arith)
waiting-set_at zero y (d ∷ ds) h = omega arith
waiting-set_at (suc i) y (d ∷ ds) h = omega (arith, waiting-set_at i y ds h)

waiting-set_zero : (i : ℕ) (ds : List ℕ) → waiting (set_at i 0 ds) ≤ waiting ds
unfolding set_at
waiting-set_zero i [] = omega arith
waiting-set_zero zero (d ∷ ds) = ground arith
waiting-set_zero (suc i) (d ∷ ds) = omega (arith, waiting-set_zero i ds)

ripple_one-measure :
    (si target : ℕ) (x : Bytes) (sj : ℕ) (p : Peel)
    → measure (ripple_one si target x sj p) ≤ measure p
unfolding ripple_one
ripple_one-measure si target x sj p = elim (Bool-cases (sj == si)) [
  | inl e ↦ rw (e, ripple_one) (omega arith)
  | inr e ↦ elim (Bool-cases (get_or 0 p.degree sj == 0)) [
    | inl z ↦ rw (e, z, ripple_one) (omega arith)
    | inr z ↦ elim (Option-cases (lookup target (get_or no_sym p.syms sj).cover)) [
      | inl l ↦ rw (e, z, l, ripple_one) (omega arith)
      | inr (c, l) ↦
          let d = get_or 0 p.degree sj in
          let some : 0 < d = ground (arith, z) in
          let moved = waiting-set_at sj (d - 1) p.degree some in
          elim (Bool-cases (d - 1 == 1)) [
            | inl one ↦
                rw (e, z, l, one, ripple_one)
                  (ground (arith, one, moved, length-append p.queue (sj ∷ [])))
            | inr more ↦ rw (e, z, l, more, ripple_one) (ground (arith, more, moved, some))
          ]
    ]
  ]
]

ripple-measure :
    (si target : ℕ) (x : Bytes) (sjs : List ℕ) (p : Peel)
    → measure (ripple si target x sjs p) ≤ measure p
unfolding ripple
ripple-measure si target x [] p = omega arith
ripple-measure si target x (sj ∷ sjs) p = omega (
  arith,
  ripple-measure si target x sjs (ripple_one si target x sj p),
  ripple_one-measure si target x sj p,
)

reveal-measure : (si : ℕ) (p : Peel) → measure (reveal si p) ≤ measure p
unfolding reveal
reveal-measure si p = elim (Bool-cases (get_or 0 p.degree si == 0)) [
  | inl z ↦ rw (z, reveal) (omega arith)
  | inr z ↦ elim (Option-cases (find_target p.revealed (get_or no_sym p.syms si).cover)) [
    | inl f ↦ rw (z, f, reveal) (omega (arith, waiting-set_zero si p.degree))
    | inr ((target, coeff), f) ↦
        rw (z, f, reveal)
          (omega (arith, ripple-measure si target _ _ _, waiting-set_zero si p.degree))
  ]
]

queue-cases : (q : List ℕ) → (q ≡ []) ⊎ ((si : ℕ) × (rest : List ℕ) × (q ≡ si ∷ rest))
queue-cases [] = inl refl
queue-cases (si ∷ rest) = inr (si, rest, refl)

peel-queue : (fuel : ℕ) (p : Peel) → measure p ≤ fuel → (peel fuel p).queue ≡ []
unfolding peel
peel-queue zero p h = elim (queue-cases p.queue) [
  | inl e ↦ e
  | inr (si, queue, e) ↦ absurd (omega (arith, h, ap (λ (q : List ℕ). length q) e))
]
peel-queue (suc fuel) p h = elim (queue-cases p.queue) [
  | inl e ↦ rw (peel, e) e
  | inr (si, queue, e) ↦
      rw (peel, e)
        (peel-queue fuel (reveal si (record p { queue = queue })) (
          omega (
            arith,
            h,
            ap (λ (q : List ℕ). length q) e,
            reveal-measure si (record p { queue = queue }),
          )))
]

degree_one-waiting : (si : ℕ) (ds : List ℕ) → length (degree_one si ds) + waiting ds ≤ length ds
unfolding degree_one
degree_one-waiting si [] = omega arith
degree_one-waiting si (d ∷ ds) = ground (arith, degree_one-waiting (si + 1) ds)

length-degrees : (syms : List ParsedSym) → length (map degree_of syms) ≡ length syms
length-degrees [] = refl
length-degrees (s ∷ syms) = ap suc (length-degrees syms)

-- The peeling is over, its queue empty, after as many rounds as there are symbols at most, whatever
-- the symbols are.
pub peel-finished :
    (k : ℕ) (syms : List ParsedSym) → (peel (length syms) (start_peel k syms)).queue ≡ []
unfolding start_peel
peel-finished k syms =
    peel-queue (length syms) (start_peel k syms)
      (omega (arith, degree_one-waiting 0 (map degree_of syms), length-degrees syms))
