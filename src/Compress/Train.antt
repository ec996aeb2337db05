-- ===== src/Compress/Train.antt =====
-- crates/compress/src/lib.rs: the dictionary that is built from samples.
use dlr.Prelude.{
  ℕ, zero, suc, ◌-◌, ◌%◌, ◌≡◌, ◌≤◌, arith, List, [], ◌∷◌, ◌++◌, take, drop, Bool, true, false, leb,
  ◌==◌, if◌then◌else◌, min, length, length-append, length-take, length-drop, Bool-cases, inl, inr,
}
use dlr.Core.Bytes.{Bytes}

-- `order.sort_by_key(|&i| samples[i].len())`, a stable sort
unfoldable pub insert_by_len : Bytes → List Bytes → List Bytes
insert_by_len s [] = s ∷ []
insert_by_len s (t ∷ ts) =
    let rest = insert_by_len s ts in if leb (length s) (length t) then s ∷ t ∷ ts else t ∷ rest

unfoldable pub sort_by_len : List Bytes → List Bytes
sort_by_len [] = []
sort_by_len (s ∷ ss) = insert_by_len s (sort_by_len ss)

-- The start of a sample on an even pass, its end on an odd one.
unfoldable pub chunk_of : ℕ → ℕ → Bytes → Bytes
chunk_of pass n s = if pass % 2 == 0 then take n s else drop (length s - n) s

-- One pass; `true` is `break 'outer`. `filled` is the length of the dictionary.
unfoldable pub train_pass : ℕ → ℕ → List Bytes → Bytes → Bytes × Bool
train_pass target_size pass [] dict = (dict, false)
train_pass target_size pass (s ∷ ss) dict =
    let n = min (length s) (target_size - length dict) in
    let dict' = dict ++ chunk_of pass n s in
    let skipped = train_pass target_size pass ss dict in
    let rest = train_pass target_size pass ss dict' in
    if length s == 0
    then skipped
    else if n == 0
    then (dict, true)
    else if leb target_size (length dict')
    then (dict', true)
    else rest

unfoldable pub train_passes : ℕ → ℕ → ℕ → List Bytes → Bytes → Bytes
train_passes target_size zero pass ss dict = dict
train_passes target_size (suc n) pass ss dict =
    let (dict', stop) = train_pass target_size pass ss dict in
    let rest = train_passes target_size n (suc pass) ss dict' in if stop then dict' else rest

unfoldable pub train_dictionary : List Bytes → ℕ → Bytes
train_dictionary samples target_size = train_passes target_size 3 0 (sort_by_len samples) []

module _ (target_size : ℕ) where
  length-chunk_of : (pass n : ℕ) (s : Bytes) → n ≤ length s → length (chunk_of pass n s) ≡ n
  unfolding chunk_of
  length-chunk_of pass n s h = elim (Bool-cases (pass % 2 == 0)) [
    | inl p ↦ rw (p, chunk_of) (omega (arith, length-take n s, h))
    | inr p ↦ rw (p, chunk_of) (omega (arith, length-drop (length s - n) s, h))
  ]

  train_pass-le :
      (pass : ℕ) (ss : List Bytes) (dict : Bytes)
      → length dict ≤ target_size
      → length (train_pass target_size pass ss dict).0 ≤ target_size
  unfolding train_pass
  train_pass-le pass [] dict h = h
  train_pass-le pass (s ∷ ss) dict h =
      let n = min (length s) (target_size - length dict) in
      let grown : length (dict ++ chunk_of pass n s) ≤ target_size =
        omega
          (arith, length-append dict (chunk_of pass n s), length-chunk_of pass n s (omega arith)) in
      ground (
        arith,
        grown,
        h,
        train_pass-le pass ss dict h,
        train_pass-le pass ss (dict ++ chunk_of pass n s) grown,
      )

  train_passes-le :
      (n pass : ℕ) (ss : List Bytes) (dict : Bytes)
      → length dict ≤ target_size
      → length (train_passes target_size n pass ss dict) ≤ target_size
  unfolding train_passes
  train_passes-le zero pass ss dict h = h
  train_passes-le (suc n) pass ss dict h =
      let once = train_pass-le pass ss dict h in
      ground (arith, once, train_passes-le n (suc pass) ss _ once)

-- A trained dictionary is no longer than was asked for, whatever the samples are.
pub length-train_dictionary :
    (samples : List Bytes) (target_size : ℕ)
    → length (train_dictionary samples target_size) ≤ target_size
unfolding train_dictionary
length-train_dictionary samples target_size =
    train_passes-le target_size 3 0 (sort_by_len samples) [] (omega arith)
