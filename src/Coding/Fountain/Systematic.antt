-- ===== src/Coding/Fountain/Systematic.antt =====
-- The encoder's first symbols at the decoder: the sources as they are.
use dlr.Prelude.{
  ℕ, suc, ◌+◌, ◌-◌, ◌^◌, ◌<◌, ◌≤◌, ◌≡◌, refl, sym, ap, ap₂, ◌∙◌, arith, List, [], ◌∷◌, ◌++◌, length,
  map, All, true, false, ltb, ◌==◌, length-append, append_assoc, append-nil, nat_eq, ==_iff, Bool,
  take-length, Option, none, some,
}
use dlr.Prelude.Results.{Result, ok}
use dlr.Prelude.Assoc.{lookup}
use dlr.Core.Bytes.{Bytes}
use dlr.Coding.Fountain.{
  FountainError, ParsedSym, FountainDecoder, Peel, new_decoder, add, decode, start_peel, all_covers,
  covering, degree_one, degree_of, unrevealed, peel, peel_symbols, unknowns_from, unwrap_or_default,
}
use dlr.Coding.Fountain.Encoder.{FountainEncoder, systematic_from, repair_symbols, produce}
use dlr.Coding.Fountain.Units.{
  unit_sym, add-systematic, units, singles, ones, nones, range, at_step, Lengths, reveal-unit,
}

length-snoc {ℓ} :
    {A : Type ℓ} (xs : List A) (x : A) (n : ℕ) → length xs ≡ n → length (xs ++ (x ∷ [])) ≡ n + 1
length-snoc xs x n h = omega (arith, h, length-append xs (x ∷ []))

peel-at_step :
    (rest : List Bytes) (spent : List ParsedSym) (gone : List (List ℕ)) (zeros : List ℕ)
    (found : List (Option Bytes)) (t : ℕ)
    → Lengths spent gone zeros found t
    → (peel (length rest) (at_step spent gone zeros found t rest)).revealed ≡ found ++ map some rest
unfolding peel
peel-at_step [] spent gone zeros found t h = refl
peel-at_step (src ∷ rest) spent gone zeros found t h =
    let consumed : ParsedSym = record { cover = (t, 1) ∷ []; payload = [] } in
    ap (λ (p : Peel). (peel (length rest) p).revealed)
      (reveal-unit spent gone zeros found t src rest h)
    ∙ peel-at_step rest (spent ++ (consumed ∷ [])) (gone ++ ([] ∷ [])) (zeros ++ (0 ∷ []))
        (found ++ (some src ∷ [])) (t + 1)
        (record {
          syms = length-snoc spent consumed t h.syms;
          covers = length-snoc gone [] t h.covers;
          degree = length-snoc zeros 0 t h.degree;
          revealed = length-snoc found (some src) t h.revealed;
        })
    ∙ append_assoc found (some src ∷ []) (map some rest)

-- At the start every source has one symbol, at its own index.
covering-past : (idx t : ℕ) (rest : List Bytes) → idx < t → covering idx t (units t rest) ≡ []
unfolding covering lookup
covering-past idx t [] h = refl
covering-past idx t (src ∷ rest) h =
    let other : (t == idx) ≡ false = ground (arith, h) in
    rw (covering, lookup, other) (covering-past idx (t + 1) rest (omega (arith, h)))

covering-units :
    (t : ℕ) (pre rest : List Bytes) (src : Bytes) (i : ℕ)
    → i + length pre ≡ t
    → covering t i (units i (pre ++ (src ∷ rest))) ≡ t ∷ []
unfolding covering lookup
covering-units t [] rest src i h =
    let is : i ≡ t = omega (arith, h) in
    let self : (i == t) ≡ true = (==_iff i t).1 is in
    rw (covering, lookup, self)
      (ap₂ (λ (x : ℕ) (xs : List ℕ). x ∷ xs) is (covering-past t (i + 1) rest (omega (arith, is))))
covering-units t (p ∷ pre) rest src i h =
    let other : (i == t) ≡ false = ground (arith, h) in
    rw (covering, lookup, other) (covering-units t pre rest src (i + 1) (omega (arith, h)))

all_covers-units :
    (pre rest : List Bytes)
    → all_covers (length pre) (length rest) (units 0 (pre ++ rest)) ≡ singles (length pre) rest
unfolding all_covers
all_covers-units pre [] = refl
all_covers-units pre (src ∷ rest) =
    let joined : (pre ++ (src ∷ [])) ++ rest ≡ pre ++ (src ∷ rest) =
      append_assoc pre (src ∷ []) rest in
    let next : length (pre ++ (src ∷ [])) ≡ length pre + 1 =
      length-snoc pre src (length pre) refl in
    ap₂ (λ (x : List ℕ) (xs : List (List ℕ)). x ∷ xs)
      (covering-units (length pre) pre rest src 0 (omega arith))
      (rw (joined, next) at (all_covers-units (pre ++ (src ∷ [])) rest))

map-degree_of : (t : ℕ) (rest : List Bytes) → map degree_of (units t rest) ≡ ones rest
map-degree_of t [] = refl
map-degree_of t (src ∷ rest) = ap (λ (l : List ℕ). 1 ∷ l) (map-degree_of (t + 1) rest)

degree_one-ones : (t : ℕ) (rest : List Bytes) → degree_one t (ones rest) ≡ range t rest
unfolding degree_one
degree_one-ones t [] = refl
degree_one-ones t (src ∷ rest) = ap (λ (l : List ℕ). t ∷ l) (degree_one-ones (t + 1) rest)

unrevealed-nones : (rest : List Bytes) → unrevealed (length rest) ≡ nones rest
unfolding unrevealed
unrevealed-nones [] = refl
unrevealed-nones (src ∷ rest) = ap (λ (l : List (Option Bytes)). none ∷ l) (unrevealed-nones rest)

start_peel-units :
    (source : List Bytes)
    → start_peel (length source) (units 0 source) ≡ at_step [] [] [] [] 0 source
unfolding start_peel
start_peel-units source =
    rw (all_covers-units [] source, map-degree_of, degree_one-ones, unrevealed-nones)

unknowns_from-some : (i : ℕ) (source : List Bytes) → unknowns_from i (map some source) ≡ []
unfolding unknowns_from
unknowns_from-some i [] = refl
unknowns_from-some i (src ∷ rest) = unknowns_from-some (i + 1) rest

map-unwrap : (source : List Bytes) → map unwrap_or_default (map some source) ≡ source
map-unwrap [] = refl
map-unwrap (src ∷ rest) = ap (λ (l : List Bytes). src ∷ l) (map-unwrap rest)

length-units : (t : ℕ) (rest : List Bytes) → length (units t rest) ≡ length rest
length-units t [] = refl
length-units t (src ∷ rest) = ap suc (length-units (t + 1) rest)

pub decode-units :
    (source : List Bytes) (size : ℕ)
    → (decode (record { k = length source; symbol_size = size; syms = units 0 source })).1
      ≡ ok source
unfolding decode peel_symbols
decode-units source size =
    let all : ltb (length source) (length source) ≡ false = ground arith in
    let found : (peel (length source) (start_peel (length source) (units 0 source))).revealed
        ≡ map some source =
      ap (λ (p : Peel). (peel (length source) p).revealed) (start_peel-units source)
      ∙ peel-at_step source [] [] [] [] 0
          (record { syms = refl; covers = refl; degree = refl; revealed = refl }) in
    rw (
      decode,
      peel_symbols,
      length-units 0 source,
      all,
      found,
      unknowns_from-some 0 source,
      map-unwrap,
    )

-- Symbols added one after the other.
unfoldable pub add_all : List Bytes → FountainDecoder → FountainDecoder
add_all [] d = d
add_all (wire ∷ wires) d = add_all wires (add wire d).0

pub add_all-systematic :
    (rest : List Bytes) (t : ℕ) (d : FountainDecoder)
    → t + length rest ≤ d.k
    → d.k ≤ 2 ^ 16
    → All (λ src. length src ≡ d.symbol_size) rest
    → add_all (systematic_from t rest) d ≡ record d { syms = d.syms ++ units t rest }
unfolding add_all systematic_from
add_all-systematic [] t d fits small sizes =
    ap (λ (l : List ParsedSym). record d { syms = l }) (sym (append-nil d.syms))
add_all-systematic (src ∷ rest) t d fits small (size, sizes) =
    let d' = record d { syms = d.syms ++ (unit_sym t src ∷ []) } in
    ap
      (λ (r : FountainDecoder × Result FountainError Bool).
        add_all (systematic_from (t + 1) rest) r.0)
      (add-systematic t src d (omega (arith, fits)) (omega (arith, fits, small)) size)
    ∙ add_all-systematic rest (t + 1) d' (omega (arith, fits)) small sizes
    ∙ ap (λ (l : List ParsedSym). record d { syms = l })
        (append_assoc d.syms (unit_sym t src ∷ []) (units (t + 1) rest))

pub produce-systematic :
    (soliton : ℕ → ℕ → ℕ) (e : FountainEncoder)
    → (produce soliton (length e.source) e).1 ≡ systematic_from 0 e.source
unfolding produce repair_symbols
produce-systematic soliton e =
    let none_left : length e.source - length e.source ≡ 0 = omega arith in
    rw (produce, none_left, repair_symbols, take-length e.source) (append-nil _)

pub decode-systematic :
    (source : List Bytes) (size : ℕ)
    → length source ≤ 2 ^ 16
    → All (λ src. length src ≡ size) source
    → (decode (add_all (systematic_from 0 source) (new_decoder (length source) size))).1 ≡ ok source
unfolding new_decoder
decode-systematic source size small sizes =
    ap (λ (d : FountainDecoder). (decode d).1)
      (add_all-systematic source 0 (new_decoder (length source) size) (omega arith) small sizes)
    ∙ decode-units source size

-- The first K symbols that an encoder of K source symbols produces, of one size and 2 ^ 16 at most,
-- give a decoder that gets them in order the source symbols back.
pub decode-produce :
    (soliton : ℕ → ℕ → ℕ) (e : FountainEncoder) (size : ℕ)
    → length e.source ≤ 2 ^ 16
    → All (λ src. length src ≡ size) e.source
    → (decode
        (add_all (produce soliton (length e.source) e).1 (new_decoder (length e.source) size))).1
      ≡ ok e.source
decode-produce soliton e size small sizes =
    ap (λ wires. (decode (add_all wires (new_decoder (length e.source) size))).1)
      (produce-systematic soliton e)
    ∙ decode-systematic e.source size small sizes
