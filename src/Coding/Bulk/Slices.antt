-- ===== src/Coding/Bulk/Slices.antt =====
-- crates/coding/src/bulk.rs: sizes of a padded payload, and the symbols that an encoder slices out of it.
use native.Mathlib.Nat.{lt-div-mul-add, div-lt_iff_lt-mul}
use dlr.Prelude.{
  ℕ, zero, suc, ◌+◌, ◌-◌, ◌*◌, ◌/◌, ◌≤◌, ◌<◌, ◌≡◌, refl, sym, ap, ◌∙◌, arith, List, [], ◌∷◌, ◌++◌,
  length, take, drop, map, All, leb, ◌==◌, concat_map, length-take, length-drop, append-nil,
  take-append-drop, drop-drop, drop-append_len, ==_iff, take-append_len, Bool-cases, inl, inr,
}
use dlr.Core.Bytes.{Bytes}
use dlr.Core.Merkle.{replicate}
use dlr.Receiver.Sync.{chunk_bytes}
use dlr.Shim.Bulk.{wire_of}
use dlr.Coding.Fountain.Encoder.{FountainEncoder, systematic_from, produce}
use dlr.Coding.Bulk.{div_ceil_max, slices, numbered}

module _ (n d : ℕ) (some_n : 1 ≤ n) (some_d : 0 < d) where
  quotient : n < (n + (d - 1)) / d * d + 1
  quotient = omega (arith, some_n, some_d, lt-div-mul-add {a = n + (d - 1)} some_d)

  pub div_ceil_max-le : n ≤ div_ceil_max n d * d
  unfolding div_ceil_max
  div_ceil_max-le = elim (Bool-cases (leb ((n + (d - 1)) / d) 1)) [
    | inl e ↦
        rw (div_ceil_max, e)
          (elim (Bool-cases ((n + (d - 1)) / d == 1)) [
            | inl one ↦ omega (arith, rw ((==_iff ((n + (d - 1)) / d) 1).0 one) at quotient)
            | inr other ↦
                let nothing : (n + (d - 1)) / d ≡ 0 = ground (arith, e, other) in
                absurd (omega (arith, some_n, rw nothing at quotient))
          ])
    | inr e ↦ rw (div_ceil_max, e) (omega (arith, quotient))
  ]

pub div_ceil_max-pos : (n d : ℕ) → 1 ≤ div_ceil_max n d
unfolding div_ceil_max
div_ceil_max-pos n d = ground arith

pub div_ceil_max_self : (k : ℕ) → 1 ≤ k → div_ceil_max k k ≡ 1
unfolding div_ceil_max
div_ceil_max_self k h =
    let less : (k + (k - 1)) / k < 2 =
      (div-lt_iff_lt-mul {k = k} {x = k + (k - 1)} {y = 2} h).1 (omega (arith, h)) in
    ground (arith, less)

module _ (buf : Bytes) (stride : ℕ) where
  pub slices-sizes :
      (k offset : ℕ)
      → offset + k * stride ≤ length buf
      → All (λ src. length src ≡ stride) (slices buf stride offset k)
  unfolding slices
  slices-sizes zero offset h = tt
  slices-sizes (suc k) offset h = (
    omega (arith, h, length-take stride (drop offset buf), length-drop offset buf),
    slices-sizes k (offset + stride) (omega (arith, h)),
  )

  pub length-slices : (k offset : ℕ) → length (slices buf stride offset k) ≡ k
  unfolding slices
  length-slices zero offset = refl
  length-slices (suc k) offset = ap suc (length-slices k (offset + stride))

  pub concat-slices :
      (k offset : ℕ)
      → offset + k * stride ≡ length buf
      → concat_map chunk_bytes (slices buf stride offset k) ≡ drop offset buf
  unfolding slices concat_map
  concat-slices zero offset h =
      sym (rw append-nil at (drop-append_len offset buf [] (omega (arith, h))))
  concat-slices (suc k) offset h =
      ap (λ (r : Bytes). take stride (drop offset buf) ++ r)
        (concat-slices k (offset + stride) (omega (arith, h)) ∙ sym (drop-drop stride offset buf))
      ∙ take-append-drop stride (drop offset buf)

pub length-replicate : (n b : ℕ) → length (replicate n b) ≡ n
length-replicate zero b = refl
length-replicate (suc n) b = ap suc (length-replicate n b)

pub map-numbered : (gen : ℕ) (ws : List Bytes) → map wire_of (numbered gen ws) ≡ ws
unfolding numbered
map-numbered gen [] = refl
map-numbered gen (w ∷ ws) = ap (λ (l : List Bytes). w ∷ l) (map-numbered gen ws)

pub length-systematic_from :
    (i : ℕ) (source : List Bytes) → length (systematic_from i source) ≡ length source
unfolding systematic_from
length-systematic_from i [] = refl
length-systematic_from i (s ∷ source) = ap suc (length-systematic_from (i + 1) source)

take-past {ℓ} : {A : Type ℓ} (n : ℕ) (xs : List A) → length xs ≤ n → take n xs ≡ xs
take-past zero [] h = refl
take-past zero (x ∷ xs) h = absurd (omega arith)
take-past (suc n) [] h = refl
take-past {A = A} (suc n) (x ∷ xs) h = ap (λ (l : List A). x ∷ l) (take-past n xs (omega arith))

-- The first K symbols of an encoder that produces at least as many.
pub take-produce :
    (soliton : ℕ → ℕ → ℕ) (e : FountainEncoder) (extra : ℕ)
    → take (length e.source) (produce soliton (length e.source + extra) e).1
      ≡ systematic_from 0 e.source
unfolding produce
take-produce soliton e extra = rw (take-past (length e.source + extra) e.source (omega arith)) (
    take-append_len (length e.source) (systematic_from 0 e.source) _
      (length-systematic_from 0 e.source))
