-- ===== src/Compress/Delta.antt =====
-- crates/compress/src/delta.rs: compression against a reference block. The hash of a reference
-- (`DefaultHasher`) is a parameter.
use dlr.Prelude.{
  ℕ, suc, ◌≡◌, ◌≤◌, refl, arith, List, [], ◌∷◌, All, Option, none, some, subst, ltb, ◌==◌,
  if◌then◌else◌, ◌⊎◌, inl, inr, Bool-cases, ltb→lt,
}
use dlr.Prelude.Results.{Result}
use dlr.Core.Bytes.{Bytes}
use dlr.Compress.{
  Zstd, CompressError, Compressor, Contexts, Dict, from_content, empty_dict, new_compressor,
  compress, decompress,
}

abbrev Mem : Bytes → List Bytes → Type 0
Mem c [] = ⊥
Mem c (d ∷ ds) = (c ≡ d) ⊎ Mem c ds

-- `a[i] == b[i]` up to the shorter length
unfoldable pub common_prefix_len : Bytes → Bytes → ℕ
common_prefix_len [] b = 0
common_prefix_len (x ∷ xs) [] = 0
common_prefix_len (x ∷ xs) (y ∷ ys) =
    let rest = common_prefix_len xs ys in if x == y then suc rest else 0

-- `max_by_key`, which keeps the later of two equals, from a first candidate.
unfoldable pub pick_later : Bytes → Bytes → List Bytes → Bytes
pick_later input best [] = best
pick_later input best (c ∷ cs) =
    if ltb (common_prefix_len input c) (common_prefix_len input best)
    then pick_later input best cs
    else pick_later input c cs

unfoldable pub pick_reference : Bytes → List Bytes → Option Bytes
pick_reference input [] = none
pick_reference input (c ∷ cs) = some (pick_later input c cs)

module _ (hash : Bytes → ℕ) where
  unfoldable pub reference_dict : Bytes → Dict
  reference_dict [] = empty_dict
  reference_dict (b ∷ bs) = from_content (hash (b ∷ bs)) (b ∷ bs)

  -- `DeltaCompressor::new`
  unfoldable pub delta_compressor : Bytes → ℕ → Compressor
  delta_compressor reference level = new_compressor (reference_dict reference) level

  module _ (zstd : Zstd) where
    unfoldable pub compress_with_reference :
        Bytes → Bytes → ℕ → Contexts zstd → Contexts zstd × Result CompressError Bytes
    compress_with_reference input reference level k =
        compress zstd (new_compressor (reference_dict reference) level) input k

    unfoldable pub decompress_with_reference :
        Bytes → Bytes → ℕ → Contexts zstd → Contexts zstd × Result CompressError Bytes
    decompress_with_reference blob reference level k =
        decompress zstd (new_compressor (reference_dict reference) level) blob k

-- What picking a reference promises.
abbrev pub IsLongest : Bytes → List Bytes → Option Bytes → Type 0
IsLongest input candidates none = candidates ≡ []
IsLongest input candidates (some best) =
    Mem best candidates
    × All (λ c. common_prefix_len input c ≤ common_prefix_len input best) candidates

pick_later_lem :
    (input best : Bytes) (cs : List Bytes)
    → IsLongest input (best ∷ cs) (some (pick_later input best cs))
unfolding pick_later
pick_later_lem input best [] = (inl refl, (omega arith, tt))
pick_later_lem input best (c ∷ cs) =
    elim (Bool-cases (ltb (common_prefix_len input c) (common_prefix_len input best))) [
      | inl p ↦
          let (m, (h, hs)) = pick_later_lem input best cs in
          let step : pick_later input best cs ≡ pick_later input best (c ∷ cs) =
            rw (p, pick_later) in
          subst (λ x. IsLongest input (best ∷ c ∷ cs) (some x)) step
            (
              elim m [ inl e ↦ inl e | inr n ↦ inr (inr n) ],
              (h, (omega (arith, h, ltb→lt _ _ p), hs)),
            )
      | inr p ↦
          let (m, (h, hs)) = pick_later_lem input c cs in
          let step : pick_later input c cs ≡ pick_later input best (c ∷ cs) = rw (p, pick_later) in
          subst (λ x. IsLongest input (best ∷ c ∷ cs) (some x)) step
            (inr m, (ground (arith, h, p), (h, hs)))
    ]

-- The reference that is picked is one of the candidates, and no candidate has a longer common prefix
-- with the input; none is picked only if there is no candidate.
pub pick_reference-IsLongest :
    (input : Bytes) (candidates : List Bytes)
    → IsLongest input candidates (pick_reference input candidates)
unfolding pick_reference
pick_reference-IsLongest input [] = refl
pick_reference-IsLongest input (c ∷ cs) = pick_later_lem input c cs
