-- ===== src/Coding/Gf256/Tables.antt =====
-- The tables of the field, checked entry by entry.
use dlr.Prelude.{
  ℕ, zero, suc, ◌<◌, ◌≡◌, refl, sym, ap, ap₂, ◌∙◌, arith, [], ◌∷◌, Bool, true, false, ◌==◌, ==_iff,
  if◌then◌else◌, ltb, ltb→lt, ◌%◌, ◌-◌, ◌+◌, Bool-cases, inl, inr,
}
use dlr.Core.Bytes.{Bytes, IsBytes}
use dlr.Coding.Gf256.{
  at, next_power, walk, exp_table, written_log, log_of, gf_mul, gf_inv, gf_scal_slice, map_bytes,
  nibble_row, mul_nibble_tables, nibble_mul,
}

-- Over a small range, every value is tried.
all_below : ℕ → (ℕ → Bool) → Bool
all_below zero p = true
all_below (suc n) p = let rest = all_below n p in if p n then rest else false

all_below_lem : (n : ℕ) (p : ℕ → Bool) (x : ℕ) → all_below n p ≡ true → x < n → p x ≡ true
unfolding all_below
all_below_lem zero p x h lt = absurd (omega arith)
all_below_lem (suc n) p x h lt = ground (arith, all_below_lem n p x)

nibbles : all_below 256 (λ a. all_below 256 (λ x. nibble_mul a x == gf_mul a x)) ≡ true
unfolding all_below gf_mul log_of written_log exp_table walk next_power nibble_mul mul_nibble_tables
    nibble_row
nibbles = refl

exps : all_below 509 (λ n. log_of (at exp_table n) == n % 255) ≡ true
unfolding all_below log_of written_log exp_table walk next_power
exps = refl

exps_pos : all_below 509 (λ n. ltb 0 (at exp_table n)) ≡ true
unfolding all_below exp_table walk next_power
exps_pos = refl

exps_again : all_below 254 (λ n. at exp_table (255 + n) == at exp_table n) ≡ true
unfolding all_below exp_table walk next_power
exps_again = refl

logs : all_below 255 (λ i. at exp_table (log_of (suc i)) == suc i) ≡ true
unfolding all_below log_of written_log exp_table walk next_power
logs = refl

logs_lt : all_below 255 (λ i. ltb (log_of (suc i)) 255) ≡ true
unfolding all_below log_of written_log exp_table walk next_power
logs_lt = refl

log-exp : (n : ℕ) → n < 509 → log_of (at exp_table n) ≡ n % 255
log-exp n h =
    (==_iff _ (n % 255)).0 (all_below_lem 509 (λ m. log_of (at exp_table m) == m % 255) n exps h)

exp_pos : (n : ℕ) → n < 509 → 0 < at exp_table n
exp_pos n h = ltb→lt 0 _ (all_below_lem 509 (λ m. ltb 0 (at exp_table m)) n exps_pos h)

exp_again : (n : ℕ) → n < 254 → at exp_table (255 + n) ≡ at exp_table n
exp_again n h =
    (==_iff _ (at exp_table n)).0
      (all_below_lem 254 (λ m. at exp_table (255 + m) == at exp_table m) n exps_again h)

exp-log : (c : ℕ) → c < 255 → at exp_table (log_of (suc c)) ≡ suc c
exp-log c h =
    (==_iff _ (suc c)).0 (all_below_lem 255 (λ i. at exp_table (log_of (suc i)) == suc i) c logs h)

log-lt : (c : ℕ) → c < 255 → log_of (suc c) < 255
log-lt c h = ltb→lt _ 255 (all_below_lem 255 (λ i. ltb (log_of (suc i)) 255) c logs_lt h)

gf_mul_pos : (a b : ℕ) → 0 < a → 0 < b → gf_mul a b ≡ at exp_table (log_of a + log_of b)
unfolding gf_mul
gf_mul_pos a b ha hb = ground (arith, ha, hb)

gf_inv_pos : (a : ℕ) → 0 < a → gf_inv a ≡ at exp_table (255 - log_of a)
unfolding gf_inv
gf_inv_pos a ha = ground (arith, ha)

-- The product by way of the two nibble tables, as the SIMD kernels compute it, is the product of the
-- full table, for all bytes.
pub nibble_mul-gf_mul : (a x : ℕ) → a < 256 → x < 256 → nibble_mul a x ≡ gf_mul a x
nibble_mul-gf_mul a x ha hx = (==_iff (nibble_mul a x) (gf_mul a x)).0 (
    all_below_lem 256 (λ y. nibble_mul a y == gf_mul a y) x
      (all_below_lem 256 (λ b. all_below 256 (λ y. nibble_mul b y == gf_mul b y)) a nibbles ha) hx)

-- The exponents of a byte, of its product and of the inverse.
gf_mul-gf_inv_pos :
    (c x : ℕ) → c < 255 → x < 255 → gf_mul (gf_inv (suc c)) (gf_mul (suc c) (suc x)) ≡ suc x
gf_mul-gf_inv_pos c x hc hx =
    let lc = log_of (suc c) in
    let lx = log_of (suc x) in
    let hlc = log-lt c hc in
    let hlx = log-lt x hx in
    let n = (255 - lc) % 255 + (lc + lx) % 255 in
    let product : gf_mul (gf_inv (suc c)) (gf_mul (suc c) (suc x)) ≡ at exp_table n = rw (
      gf_inv_pos (suc c) (omega arith),
      gf_mul_pos (suc c) (suc x) (omega arith) (omega arith),
      gf_mul_pos (at exp_table (255 - lc)) (at exp_table (lc + lx))
          (exp_pos (255 - lc) (omega arith)) (exp_pos (lc + lx) (omega (arith, hlc, hlx))),
      log-exp (255 - lc) (omega arith),
      log-exp (lc + lx) (omega (arith, hlc, hlx)),
    ) in
    product ∙ elim (Bool-cases (n == lx)) [
      | inl e ↦ rw ((==_iff n lx).0 e) (exp-log x hx)
      | inr e ↦
          let is : n ≡ 255 + lx = ground (arith, e, hlc, hlx) in
          rw (is, exp_again lx (ground (arith, e, hlc, hlx))) (exp-log x hx)
    ]

-- A byte multiplied by a coefficient that is not zero, and then by the coefficient's inverse, is as
-- it was.
pub gf_mul-gf_inv : (c x : ℕ) → 0 < c → c < 256 → x < 256 → gf_mul (gf_inv c) (gf_mul c x) ≡ x
unfolding gf_mul
gf_mul-gf_inv zero x some hc hx = absurd (omega arith)
gf_mul-gf_inv (suc c) zero some hc hx = ground arith
gf_mul-gf_inv (suc c) (suc x) some hc hx = gf_mul-gf_inv_pos c x (omega arith) (omega arith)

ones : all_below 256 (λ x. gf_mul 1 x == x) ≡ true
unfolding all_below gf_mul log_of written_log exp_table walk next_power
ones = refl

pub one-gf_mul : (x : ℕ) → x < 256 → gf_mul 1 x ≡ x
one-gf_mul x h = (==_iff _ x).0 (all_below_lem 256 (λ y. gf_mul 1 y == y) x ones h)

zero-gf_mul : (x : ℕ) → gf_mul 0 x ≡ 0
unfolding gf_mul
zero-gf_mul x = refl

map_bytes-same :
    (f g : ℕ → ℕ) (xs : Bytes)
    → IsBytes xs
    → ((x : ℕ) → x < 256 → f x ≡ g x)
    → map_bytes f xs ≡ map_bytes g xs
unfolding map_bytes
map_bytes-same f g [] h e = refl
map_bytes-same f g (x ∷ xs) h e =
    ap₂ (λ (y : ℕ) (ys : Bytes). y ∷ ys) (e x h.0) (map_bytes-same f g xs h.1 e)

map_bytes-id : (xs : Bytes) → map_bytes (λ x. x) xs ≡ xs
unfolding map_bytes
map_bytes-id [] = refl
map_bytes-id (x ∷ xs) = ap (λ (ys : Bytes). x ∷ ys) (map_bytes-id xs)

map_bytes-map_bytes :
    (f g : ℕ → ℕ) (xs : Bytes) → map_bytes f (map_bytes g xs) ≡ map_bytes (λ x. f (g x)) xs
unfolding map_bytes
map_bytes-map_bytes f g [] = refl
map_bytes-map_bytes f g (x ∷ xs) = ap (λ (ys : Bytes). f (g x) ∷ ys) (map_bytes-map_bytes f g xs)

-- The fast paths for 0 and 1 are products too.
scal-map_bytes : (a : ℕ) (xs : Bytes) → IsBytes xs → gf_scal_slice a xs ≡ map_bytes (gf_mul a) xs
unfolding gf_scal_slice
scal-map_bytes a xs h = elim (Bool-cases (a == 0)) [
  | inl e ↦
      rw (e, gf_scal_slice, (==_iff a 0).0 e)
        (map_bytes-same (λ d. 0) (gf_mul 0) xs h (λ x _. sym (zero-gf_mul x)))
  | inr e ↦ elim (Bool-cases (a == 1)) [
    | inl e' ↦
        rw (e, e', gf_scal_slice, (==_iff a 1).0 e')
          (sym (map_bytes-id xs)
            ∙ map_bytes-same (λ x. x) (gf_mul 1) xs h (λ x l. sym (one-gf_mul x l)))
    | inr e' ↦ rw (e, e', gf_scal_slice)
  ]
]

bytes : all_below 256 (λ c. all_below 256 (λ x. ltb (gf_mul c x) 256)) ≡ true
unfolding all_below gf_mul log_of written_log exp_table walk next_power
bytes = refl

gf_mul-lt : (c x : ℕ) → c < 256 → x < 256 → gf_mul c x < 256
gf_mul-lt c x hc hx = ltb→lt _ 256 (
    all_below_lem 256 (λ y. ltb (gf_mul c y) 256) x
      (all_below_lem 256 (λ b. all_below 256 (λ y. ltb (gf_mul b y) 256)) c bytes hc) hx)

map_bytes-IsBytes : (c : ℕ) (xs : Bytes) → c < 256 → IsBytes xs → IsBytes (map_bytes (gf_mul c) xs)
unfolding map_bytes
map_bytes-IsBytes c [] hc h = tt
map_bytes-IsBytes c (x ∷ xs) hc h = (gf_mul-lt c x hc h.0, map_bytes-IsBytes c xs hc h.1)

-- Scaling a symbol by a coefficient that is not zero and then by the coefficient's inverse, as a
-- reveal of the fountain decoder does, gives the symbol back, by the fast paths too.
pub gf_scal_slice-gf_inv :
    (c : ℕ) (xs : Bytes)
    → 0 < c
    → c < 256
    → IsBytes xs
    → gf_scal_slice (gf_inv c) (gf_scal_slice c xs) ≡ xs
gf_scal_slice-gf_inv c xs some hc h =
    ap (gf_scal_slice (gf_inv c)) (scal-map_bytes c xs h)
    ∙ scal-map_bytes (gf_inv c) (map_bytes (gf_mul c) xs) (map_bytes-IsBytes c xs hc h)
    ∙ map_bytes-map_bytes (gf_mul (gf_inv c)) (gf_mul c) xs
    ∙ map_bytes-same (λ x. gf_mul (gf_inv c) (gf_mul c x)) (λ x. x) xs h
        (λ x l. gf_mul-gf_inv c x some hc l)
    ∙ map_bytes-id xs
