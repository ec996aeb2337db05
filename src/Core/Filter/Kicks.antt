-- ===== src/Core/Filter/Kicks.antt =====
-- What a run of kicks keeps: a fingerprint stays in one of its two buckets.
use dlr.Prelude.{
  ℕ, zero, suc, ◌+◌, ◌%◌, ◌^◌, ◌<◌, ◌≡◌, ◌⊎◌, inl, inr, refl, subst, ap, ◌∙◌, arith, List, [], ◌∷◌,
  length, All, some, true, ◌==◌, if◌then◌else◌, set_at, get_or, Bool-cases, Option-cases,
}
use dlr.Core.Filter.{Bucket, CuckooFilter, alt_index, place, has, bucket_at, kick, slots}
use dlr.Core.Filter.Mask.{masked-lt, masked-masked}

-- A table of a width that is a power of two, with its mask and whole buckets.
pub record IsTable (f : CuckooFilter) : Type 0 where
  pub bits : ℕ
  pub wide : length f.buckets ≡ 2 ^ bits
  pub masks : f.mask + 1 ≡ 2 ^ bits
  pub whole : All (λ b. length b ≡ 4) f.buckets

module _ {A : Type 0} where
  pub length-set_at : (i : ℕ) (x : A) (xs : List A) → length (set_at i x xs) ≡ length xs
  unfolding set_at
  length-set_at i x [] = refl
  length-set_at zero x (y ∷ ys) = refl
  length-set_at (suc i) x (y ∷ ys) = ap suc (length-set_at i x ys)

  get_or-set_at :
      (a x : A) (i j : ℕ) (xs : List A)
      → i < length xs
      → get_or a (set_at i x xs) j ≡ (if j == i then x else get_or a xs j)
  unfolding set_at
  get_or-set_at a x i j [] h = absurd (omega arith)
  get_or-set_at a x zero zero (y ∷ ys) h = refl
  get_or-set_at a x zero (suc j) (y ∷ ys) h = ground arith
  get_or-set_at a x (suc i) zero (y ∷ ys) h = ground arith
  get_or-set_at a x (suc i) (suc j) (y ∷ ys) h =
      get_or-set_at a x i j ys (omega arith) ∙ ground arith

  All-set_at :
      (P : A → Type 0) (i : ℕ) (x : A) (xs : List A) → P x → All P xs → All P (set_at i x xs)
  unfolding set_at
  All-set_at P i x [] h k = tt
  All-set_at P zero x (y ∷ ys) h k = (h, k.1)
  All-set_at P (suc i) x (y ∷ ys) h k = (k.0, All-set_at P i x ys h k.1)

  All-get_or :
      (P : A → Type 0) (a : A) (i : ℕ) (xs : List A) → i < length xs → All P xs → P (get_or a xs i)
  All-get_or P a i [] h k = absurd (omega arith)
  All-get_or P a zero (x ∷ xs) h k = k.0
  All-get_or P a (suc i) (x ∷ xs) h k = All-get_or P a i xs (omega arith) k.1

place-has : (fp : ℕ) (b c : Bucket) → place fp b ≡ some c → has fp c ≡ true
unfolding place has
place-has fp [] c h = absurd (cc)
place-has fp (s ∷ ss) c h = elim (Bool-cases (s == 0)) [
  | inl e ↦ subst (λ x. has fp x ≡ true) (let q : fp ∷ ss ≡ c = cc (rw e at h) in q) (ground arith)
  | inr e ↦ elim (Option-cases (place fp ss)) [
    | inl n ↦ absurd (cc (rw (e, n) at h))
    | inr (d, n) ↦
        subst (λ x. has fp x ≡ true) (let q : s ∷ d ≡ c = cc (rw (e, n) at h) in q)
          (ground (arith, place-has fp ss d n))
  ]
]

place-keeps :
    (fp g : ℕ) (b c : Bucket) → 0 < g → place fp b ≡ some c → has g b ≡ true → has g c ≡ true
unfolding place has
place-keeps fp g [] c some_g h k = absurd (cc)
place-keeps fp g (s ∷ ss) c some_g h k = elim (Bool-cases (s == 0)) [
  | inl e ↦
      subst (λ x. has g x ≡ true) (let q : fp ∷ ss ≡ c = cc (rw e at h) in q) (ground (arith, e, k))
  | inr e ↦ elim (Option-cases (place fp ss)) [
    | inl n ↦ absurd (cc (rw (e, n) at h))
    | inr (d, n) ↦
        subst (λ x. has g x ≡ true) (let q : s ∷ d ≡ c = cc (rw (e, n) at h) in q)
          (ground (arith, k, place-keeps fp g ss d some_g n))
  ]
]

length-place : (fp : ℕ) (b c : Bucket) → place fp b ≡ some c → length c ≡ length b
unfolding place
length-place fp [] c h = absurd (cc)
length-place fp (s ∷ ss) c h = elim (Bool-cases (s == 0)) [
  | inl e ↦
      subst (λ (x : Bucket). length x ≡ length (s ∷ ss)) (let q : fp ∷ ss ≡ c = cc (rw e at h) in q)
        refl
  | inr e ↦ elim (Option-cases (place fp ss)) [
    | inl n ↦ absurd (cc (rw (e, n) at h))
    | inr (d, n) ↦
        subst (λ (x : Bucket). length x ≡ length (s ∷ ss))
          (let q : s ∷ d ≡ c = cc (rw (e, n) at h) in q) (ap suc (length-place fp ss d n))
  ]
]

swap-has : (s fp : ℕ) (b : Bucket) → s < length b → has fp (set_at s fp b) ≡ true
unfolding set_at has
swap-has s fp [] h = absurd (omega arith)
swap-has zero fp (x ∷ b) h = ground arith
swap-has (suc s) fp (x ∷ b) h = ground (arith, swap-has s fp b (omega arith))

-- What an eviction loses is what it takes in hand.
swap-keeps :
    (s fp g : ℕ) (b : Bucket) → has g b ≡ true → (has g (set_at s fp b) ≡ true) ⊎ (get_or 0 b s ≡ g)
unfolding set_at has
swap-keeps s fp g [] h = absurd (cc)
swap-keeps zero fp g (x ∷ b) h = elim (Bool-cases (x == g)) [
  | inl e ↦ inr (ground (arith, e))
  | inr e ↦ inl (ground (arith, rw e at h))
]
swap-keeps (suc s) fp g (x ∷ b) h = elim (Bool-cases (x == g)) [
  | inl e ↦ inl (rw e)
  | inr e ↦ elim (swap-keeps s fp g b (rw e at h)) [ inl k ↦ inl (rw e k) | inr k ↦ inr k ]
]

-- The fingerprint is in one of the two buckets that belong to an index.
abbrev pub Kept : CuckooFilter → ℕ → ℕ → Type 0
Kept f j g =
    (has g (bucket_at f.buckets j) ≡ true)
    ⊎ (has g (bucket_at f.buckets (alt_index f.mask j g)) ≡ true)

-- It is the one in hand, on its way to one of them.
abbrev InHand : CuckooFilter → ℕ → ℕ → ℕ → ℕ → Type 0
InHand f j g i h = (h ≡ g) × ((i ≡ j) ⊎ (i ≡ alt_index f.mask j g))

-- A bucket is replaced: the others stay.
has-set_at :
    (bs : List Bucket) (i j g : ℕ) (b : Bucket)
    → i < length bs
    → has g (bucket_at bs j) ≡ true
    → ((i ≡ j) → has g b ≡ true)
    → has g (bucket_at (set_at i b bs) j) ≡ true
has-set_at bs i j g b inside h k = elim (Bool-cases (j == i)) [
  | inl e ↦ rw (get_or-set_at [] b i j bs inside, e) (k (ground (arith, e)))
  | inr e ↦ rw (get_or-set_at [] b i j bs inside, e) h
]

has-set_at_here :
    (bs : List Bucket) (i g : ℕ) (b : Bucket)
    → i < length bs
    → has g b ≡ true
    → has g (bucket_at (set_at i b bs) i) ≡ true
has-set_at_here bs i g b inside h =
    let here : (i == i) ≡ true = ground arith in rw (get_or-set_at [] b i i bs inside, here) h

module _ (f : CuckooFilter) (t : IsTable f) where
  pub alt_index-lt : (i g : ℕ) → alt_index f.mask i g < length f.buckets
  unfolding alt_index
  alt_index-lt i g = rw t.wide (masked-lt t.bits f.mask i _ t.masks)

  alt_index-twice : (i g : ℕ) → i < length f.buckets → alt_index f.mask (alt_index f.mask i g) g ≡ i
  unfolding alt_index
  alt_index-twice i g h = masked-masked t.bits f.mask i _ t.masks (rw t.wide at h)

  bucket-whole : (i : ℕ) → i < length f.buckets → length (bucket_at f.buckets i) ≡ 4
  bucket-whole i h = All-get_or (λ (b : Bucket). length b ≡ 4) [] i f.buckets h t.whole

  IsTable-set_at :
      (i : ℕ) (b : Bucket) → length b ≡ 4 → IsTable (record f { buckets = set_at i b f.buckets })
  IsTable-set_at i b h = record {
    bits = t.bits;
    wide = length-set_at i b f.buckets ∙ t.wide;
    masks = t.masks;
    whole = All-set_at (λ (b : Bucket). length b ≡ 4) i b f.buckets h t.whole;
  }

-- A fingerprint that is there, or in hand, in front of a kick that finds a slot.
Kept-place :
    (f : CuckooFilter) (i h j g : ℕ) (b : Bucket)
    → i < length f.buckets
    → 0 < g
    → place h (bucket_at f.buckets i) ≡ some b
    → Kept f j g ⊎ InHand f j g i h
    → Kept (record f { buckets = set_at i b f.buckets; count = f.count + 1 }) j g
Kept-place f i h j g b inside some_g p (inl (inl k)) =
    inl (has-set_at f.buckets i j g b inside k λ e. place-keeps h g _ b some_g p (rw e k))
Kept-place f i h j g b inside some_g p (inl (inr k)) =
    inr (has-set_at f.buckets i _ g b inside k λ e. place-keeps h g _ b some_g p (rw e k))
Kept-place f i h j g b inside some_g p (inr (same, inl e)) =
    inl (rw (← e) (has-set_at_here f.buckets i g b inside (rw same at (place-has h _ b p))))
Kept-place f i h j g b inside some_g p (inr (same, inr e)) =
    inr (rw (← e) (has-set_at_here f.buckets i g b inside (rw same at (place-has h _ b p))))

-- The same in front of a kick that evicts.
Kept-evict :
    (f : CuckooFilter) (i h j g s : ℕ)
    → IsTable f
    → i < length f.buckets
    → j < length f.buckets
    → s < 4
    → Kept f j g ⊎ InHand f j g i h
    → let f' = record f { buckets = set_at i (set_at s h (bucket_at f.buckets i)) f.buckets } in
      let e = get_or 0 (bucket_at f.buckets i) s in
      Kept f' j g ⊎ InHand f' j g (alt_index f.mask i e) e
Kept-evict f i h j g s t inside in_j four (inr (same, at)) =
    let put = swap-has s h (bucket_at f.buckets i) (rw (bucket-whole f t i inside) four) in
    let put' : has g (set_at s h (bucket_at f.buckets i)) ≡ true =
      subst (λ x. has x (set_at s h (bucket_at f.buckets i)) ≡ true) same put in
    inl (elim at [
      | inl e ↦ inl (rw (← e) (has-set_at_here f.buckets i g _ inside put'))
      | inr e ↦ inr (rw (← e) (has-set_at_here f.buckets i g _ inside put'))
    ])
Kept-evict f i h j g s t inside in_j four (inl (inl k)) = elim (Bool-cases (j == i)) [
  | inl q ↦
      let here : i ≡ j = ground (arith, q) in
      elim (swap-keeps s h g (bucket_at f.buckets i) (rw here k)) [
        | inl still ↦ inl (inl (rw (← here) (has-set_at_here f.buckets i g _ inside still)))
        | inr out ↦ inr (out, inr (rw (out, here)))
      ]
  | inr q ↦ inl (inl (has-set_at f.buckets i j g _ inside k λ e. absurd (ground (arith, q, e))))
]
Kept-evict f i h j g s t inside in_j four (inl (inr k)) =
    let a = alt_index f.mask j g in
    elim (Bool-cases (a == i)) [
      | inl q ↦
          let here : i ≡ a = ground (arith, q) in
          elim (swap-keeps s h g (bucket_at f.buckets i) (rw here k)) [
            | inl still ↦ inl (inr (rw (← here) (has-set_at_here f.buckets i g _ inside still)))
            | inr out ↦ inr (out, inl (rw (out, here) (alt_index-twice f t j g in_j)))
          ]
      | inr q ↦ inl (inr (has-set_at f.buckets i a g _ inside k λ e. absurd (ground (arith, q, e))))
    ]

-- A run of kicks that ends with a slot.
pub record Stored (f g : CuckooFilter) (i h : ℕ) : Type 0 where
  pub table : IsTable g
  pub same_mask : g.mask ≡ f.mask
  pub same_width : length g.buckets ≡ length f.buckets
  pub same_state : g.saturated ≡ f.saturated
  pub keeps : (j x : ℕ) → 0 < x → j < length f.buckets → Kept f j x ⊎ InHand f j x i h → Kept g j x

pub kick-Stored :
    (n i h : ℕ) (f : CuckooFilter)
    → IsTable f
    → i < length f.buckets
    → (kick n i h f).1 ≡ true
    → Stored f (kick n i h f).0 i h
unfolding kick slots
kick-Stored zero i h f t inside k = absurd (cc)
kick-Stored (suc n) i h f t inside k = elim (Option-cases (place h (bucket_at f.buckets i))) [
  | inr (b, p) ↦
      let whole = length-place h (bucket_at f.buckets i) b p ∙ bucket-whole f t i inside in
      let t' = IsTable-set_at f t i b whole in
      rw (kick, p)
        (record {
          table = record { bits = t'.bits; wide = t'.wide; masks = t'.masks; whole = t'.whole };
          same_mask = refl;
          same_width = length-set_at i b f.buckets;
          same_state = refl;
          keeps = λ j x some_x in_j w. Kept-place f i h j x b inside some_x p w;
        })
  | inl p ↦
      let s = h % slots in
      let bucket = bucket_at f.buckets i in
      let e = get_or 0 bucket s in
      let b = set_at s h bucket in
      let f' : CuckooFilter = record f { buckets = set_at i b f.buckets } in
      let t' = IsTable-set_at f t i b (length-set_at s h bucket ∙ bucket-whole f t i inside) in
      let width : length f'.buckets ≡ length f.buckets = length-set_at i b f.buckets in
      let rest =
        kick-Stored n (alt_index f.mask i e) e f' t' (rw width (alt_index-lt f t i e))
          (rw (kick, p) at k) in
      rw (kick, p)
        (record {
          table = rest.table;
          same_mask = rest.same_mask;
          same_width = rest.same_width ∙ width;
          same_state = rest.same_state;
          keeps = λ j x some_x in_j w.
              rest.keeps j x some_x (rw width in_j)
                (Kept-evict f i h j x s t inside in_j (omega arith) w);
        })
]
