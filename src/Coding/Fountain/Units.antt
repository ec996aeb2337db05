-- ===== src/Coding/Fountain/Units.antt =====
-- A systematic symbol at the decoder, and its turn in the peeling.
use dlr.Prelude.{
  set_at, get_or, ℕ, zero, suc, ◌+◌, ◌-◌, ◌*◌, ◌/◌, ◌%◌, ◌^◌, ◌<◌, ◌≡◌, refl, ap, arith, List, [],
  ◌∷◌, ◌++◌, length, take, true, false, ltb, ◌==◌, nat_eq, ==_iff, take-length, Option, none, some,
}
use dlr.Prelude.Results.{ok}
use dlr.Prelude.Assoc.{insert}
use dlr.Core.Bytes.{Bytes, to_le, from_le}
use dlr.Coding.Fountain.{
  ParsedSym, FountainDecoder, Peel, read_cover, add, no_sym, find_target, ripple, ripple_one,
  reveal,
}
use dlr.Coding.Gf256.{gf_inv, gf_scal_slice, log_of, written_log, exp_table, walk, next_power}
use dlr.Coding.Fountain.Encoder.{systematic}

abbrev pub unit_sym : ℕ → Bytes → ParsedSym
unit_sym i src = record { cover = (i, 1) ∷ []; payload = src }

-- A systematic symbol of the decoder's size is taken with its unit cover.
pub add-systematic :
    (i : ℕ) (src : Bytes) (d : FountainDecoder)
    → i < d.k
    → i < 2 ^ 16
    → length src ≡ d.symbol_size
    → add (systematic i src) d ≡ (record d { syms = d.syms ++ (unit_sym i src ∷ []) }, ok true)
unfolding add systematic to_le from_le read_cover insert
add-systematic i src d known fits size =
    let index : i % 256 + (i / 256 % 256 + 0 * 256) * 256 ≡ i = omega (arith, fits) in
    let inside : ltb i d.k ≡ true = ground (arith, known) in
    let width : 5 + d.symbol_size - 5 ≡ d.symbol_size = omega arith in
    let whole : take d.symbol_size src ≡ src = rw (← size) (take-length src) in
    let long : ltb (length (systematic i src)) (5 + d.symbol_size) ≡ false = ground (arith, size) in
    let short : ltb (length (systematic i src)) 2 ≡ false = ground arith in
    rw (add, index, inside, width, whole, long, short)

module _ {ℓ} {A : Type ℓ} where
  get_or-append :
      (a : A) (xs : List A) (y : A) (ys : List A) (n : ℕ)
      → length xs ≡ n
      → get_or a (xs ++ (y ∷ ys)) n ≡ y
  get_or-append a [] y ys zero h = refl
  get_or-append a [] y ys (suc n) h = absurd (omega arith)
  get_or-append a (x ∷ xs) y ys zero h = absurd (omega arith)
  get_or-append a (x ∷ xs) y ys (suc n) h = get_or-append a xs y ys n (omega arith)

  set_at-append :
      (z : A) (xs : List A) (y : A) (ys : List A) (n : ℕ)
      → length xs ≡ n
      → set_at n z (xs ++ (y ∷ ys)) ≡ (xs ++ (z ∷ [])) ++ ys
  unfolding set_at
  set_at-append z [] y ys zero h = refl
  set_at-append z [] y ys (suc n) h = absurd (omega arith)
  set_at-append z (x ∷ xs) y ys zero h = absurd (omega arith)
  set_at-append z (x ∷ xs) y ys (suc n) h =
      ap (λ (l : List A). x ∷ l) (set_at-append z xs y ys n (omega arith))

-- The symbols from index `t` on, and what the peeling makes of them.
abbrev pub units : ℕ → List Bytes → List ParsedSym
units t [] = []
units t (src ∷ rest) = unit_sym t src ∷ units (t + 1) rest

abbrev pub singles : ℕ → List Bytes → List (List ℕ)
singles t [] = []
singles t (src ∷ rest) = (t ∷ []) ∷ singles (t + 1) rest

abbrev pub ones : List Bytes → List ℕ
ones [] = []
ones (src ∷ rest) = 1 ∷ ones rest

abbrev pub nones : List Bytes → List (Option Bytes)
nones [] = []
nones (src ∷ rest) = none ∷ nones rest

abbrev pub range : ℕ → List Bytes → List ℕ
range t [] = []
range t (src ∷ rest) = t ∷ range (t + 1) rest

inv_one : gf_inv 1 ≡ 1
unfolding gf_inv log_of written_log exp_table walk next_power
inv_one = refl

-- The state with the sources in front of `t` found.
abbrev pub at_step :
    List ParsedSym → List (List ℕ) → List ℕ → List (Option Bytes) → ℕ → List Bytes → Peel
at_step spent gone zeros found t rest = record {
  syms = spent ++ units t rest;
  covers = gone ++ singles t rest;
  degree = zeros ++ ones rest;
  queue = range t rest;
  revealed = found ++ nones rest;
}

pub record Lengths (spent : List ParsedSym) (gone : List (List ℕ)) (zeros : List ℕ)
    (found : List (Option Bytes)) (t : ℕ) : Type 0 where
  pub syms : length spent ≡ t
  pub covers : length gone ≡ t
  pub degree : length zeros ≡ t
  pub revealed : length found ≡ t

pub reveal-unit :
    (spent : List ParsedSym) (gone : List (List ℕ)) (zeros : List ℕ) (found : List (Option Bytes))
    (t : ℕ) (src : Bytes) (rest : List Bytes)
    → Lengths spent gone zeros found t
    → reveal t
        (record (at_step spent gone zeros found t (src ∷ rest)) { queue = range (t + 1) rest })
      ≡ at_step
          (spent ++ (record { cover = (t, 1) ∷ []; payload = [] } ∷ []))
          (gone ++ ([] ∷ []))
          (zeros ++ (0 ∷ []))
          (found ++ (some src ∷ []))
          (t + 1)
          rest
unfolding reveal find_target ripple ripple_one gf_scal_slice
reveal-unit spent gone zeros found t src rest h =
    let self : (t == t) ≡ true = (==_iff t t).1 refl in
    let found_sym = get_or-append no_sym spent (unit_sym t src) (units (t + 1) rest) t h.syms in
    rw (
      reveal,
      ap (λ (s : ParsedSym). s.cover) found_sym,
      get_or-append 0 zeros 1 (ones rest) t h.degree,
      get_or-append none found none (nones rest) t h.revealed,
      get_or-append [] gone (t ∷ []) (singles (t + 1) rest) t h.covers,
      ap (λ (s : ParsedSym). s.payload) found_sym,
      ap (λ (s : ParsedSym). s.cover) found_sym,
      self,
      inv_one,
      set_at-append (record { cover = (t, 1) ∷ []; payload = [] }) spent (unit_sym t src)
          (units (t + 1) rest) t h.syms,
      set_at-append 0 zeros 1 (ones rest) t h.degree,
      set_at-append (some src) found none (nones rest) t h.revealed,
      set_at-append [] gone (t ∷ []) (singles (t + 1) rest) t h.covers,
    )
