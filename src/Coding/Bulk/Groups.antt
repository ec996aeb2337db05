-- ===== src/Coding/Bulk/Groups.antt =====
-- crates/coding/src/bulk.rs: the groups that `decode` makes of generations that come one after the
-- other, and the region that the symbols of one fill.
use native.Mathlib.Nat.{zero-mul}
use dlr.Prelude.{
  ℕ, zero, suc, ◌+◌, ◌-◌, ◌*◌, ◌≤◌, ◌<◌, ◌≡◌, refl, sym, ap, ◌∙◌, arith, List, [], ◌∷◌, ◌++◌,
  length, take, drop, min, All, true, false, ltb, ◌==◌, append_assoc, append-nil, length-take,
  length-drop, take-add, drop-drop, take-length,
}
use dlr.Prelude.Assoc.{Assoc}
use dlr.Core.Bytes.{Bytes}
use dlr.Coding.Bulk.{slices, numbered}
use dlr.Coding.Bulk.Reassembly.{push_symbol, group_symbols, fill_region}

-- Every id is smaller.
abbrev pub Below : ℕ → Assoc ℕ (List Bytes) → Type 0
Below gen groups = All (λ g. g.0 < gen) groups

push_symbol-new :
    (gen : ℕ) (w : Bytes) (groups : Assoc ℕ (List Bytes))
    → Below gen groups
    → push_symbol gen w groups ≡ groups ++ ((gen, w ∷ []) ∷ [])
unfolding push_symbol
push_symbol-new gen w [] h = refl
push_symbol-new gen w ((g, ws) ∷ groups) (low, h) =
    let other : (gen == g) ≡ false = ground (arith, low) in
    let later : ltb gen g ≡ false = ground (arith, low) in
    rw (push_symbol, other, later)
      (ap (λ (l : Assoc ℕ (List Bytes)). (g, ws) ∷ l) (push_symbol-new gen w groups h))

push_symbol-last :
    (gen : ℕ) (w : Bytes) (ws : List Bytes) (groups : Assoc ℕ (List Bytes))
    → Below gen groups
    → push_symbol gen w (groups ++ ((gen, ws) ∷ [])) ≡ groups ++ ((gen, ws ++ (w ∷ [])) ∷ [])
unfolding push_symbol
push_symbol-last gen w ws [] h =
    let self : (gen == gen) ≡ true = ground arith in rw (push_symbol, self)
push_symbol-last gen w ws ((g, vs) ∷ groups) (low, h) =
    let other : (gen == g) ≡ false = ground (arith, low) in
    let later : ltb gen g ≡ false = ground (arith, low) in
    rw (push_symbol, other, later)
      (ap (λ (l : Assoc ℕ (List Bytes)). (g, vs) ∷ l) (push_symbol-last gen w ws groups h))

group_symbols-last :
    (gen : ℕ) (us ws : List Bytes) (rest : List (ℕ × Bytes)) (groups : Assoc ℕ (List Bytes))
    → Below gen groups
    → group_symbols (numbered gen us ++ rest) (groups ++ ((gen, ws) ∷ []))
      ≡ group_symbols rest (groups ++ ((gen, ws ++ us) ∷ []))
unfolding group_symbols numbered
group_symbols-last gen [] ws rest groups h =
    ap (λ (l : List Bytes). group_symbols rest (groups ++ ((gen, l) ∷ []))) (sym (append-nil ws))
group_symbols-last gen (u ∷ us) ws rest groups h =
    ap (group_symbols (numbered gen us ++ rest)) (push_symbol-last gen u ws groups h)
    ∙ group_symbols-last gen us (ws ++ (u ∷ [])) rest groups h
    ∙ ap (λ (l : List Bytes). group_symbols rest (groups ++ ((gen, l) ∷ [])))
        (append_assoc ws (u ∷ []) us)

pub group_symbols-numbered :
    (gen : ℕ) (ws : List Bytes) (rest : List (ℕ × Bytes)) (groups : Assoc ℕ (List Bytes))
    → 1 ≤ length ws
    → Below gen groups
    → group_symbols (numbered gen ws ++ rest) groups
      ≡ group_symbols rest (groups ++ ((gen, ws) ∷ []))
unfolding group_symbols numbered
group_symbols-numbered gen [] rest groups some_ws h = absurd (omega (arith, some_ws))
group_symbols-numbered gen (w ∷ ws) rest groups some_ws h =
    ap (group_symbols (numbered gen ws ++ rest)) (push_symbol-new gen w groups h)
    ∙ group_symbols-last gen ws (w ∷ []) rest groups h

pub fill_region-slices :
    (buf : Bytes) (size k offset : ℕ)
    → offset + k * size ≤ length buf
    → fill_region (k * size) (slices buf size offset k) ≡ take (k * size) (drop offset buf)
unfolding fill_region slices
fill_region-slices buf size zero offset h = rw zero-mul
fill_region-slices buf size (suc k) offset h =
    let head = take size (drop offset buf) in
    let whole : length head ≡ size =
      omega (arith, h, length-take size (drop offset buf), length-drop offset buf) in
    let room : min (length head) (suc k * size) ≡ size = omega (arith, whole) in
    let left : suc k * size - size ≡ k * size = omega arith in
    let all : size + k * size ≡ suc k * size = omega arith in
    rw (fill_region, room, left, fill_region-slices buf size k (offset + size) (omega (arith, h)))
      (ap (λ (l : Bytes). l ++ take (k * size) (drop (offset + size) buf))
          (ap (λ n. take n head) (sym whole) ∙ take-length head)
        ∙ ap (λ (l : Bytes). head ++ take (k * size) l) (sym (drop-drop size offset buf))
        ∙ take-add size (k * size) (drop offset buf)
        ∙ ap (λ n. take n (drop offset buf)) all)
