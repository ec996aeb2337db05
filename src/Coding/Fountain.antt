-- ===== src/Coding/Fountain.antt =====
-- crates/coding/src/fountain.rs: the decoder of one generation. A `HashMap` cover is an association
-- list; its order could matter only in the search for a source that is not found yet.
-- `usize` sums are not wrapped.
pub mod Encoder
pub mod Peeling
pub mod Units
pub mod Systematic
pub mod Retry
use dlr.Prelude.{
  ℕ, zero, suc, ◌+◌, ◌-◌, ◌*◌, List, [], ◌∷◌, ◌++◌, length, take, drop, map, get_elem?, Option,
  none, some, Bool, true, false, ltb, ◌==◌, if◌then◌else◌, nat_eq, set_at, get_or,
}
use Prim.Native.Nat.{bit_xor}
use dlr.Prelude.Assoc.{Assoc, lookup, insert, remove}
use dlr.Prelude.Results.{Result, ok, err}
use dlr.Core.Bytes.{Bytes, from_le, slice}
use dlr.Core.Canonical.{byte_at}
use dlr.Core.Merkle.{replicate}
use dlr.Coding.Gf256.{gf_inv, gf_axpy_slice, gf_scal_slice}
use dlr.Coding.Gf256.Gauss.{gf_gauss_eliminate}

pub data FountainError : Type 0 where
  empty : FountainError
  underdetermined : ℕ → ℕ → FountainError
  size_mismatch : ℕ → ℕ → FountainError

pub record ParsedSym : Type 0 where
  pub cover : Assoc ℕ ℕ
  pub payload : Bytes

pub record FountainDecoder : Type 0 where
  pub k : ℕ
  pub symbol_size : ℕ
  pub syms : List ParsedSym

unfoldable pub new_decoder : ℕ → ℕ → FountainDecoder
new_decoder k symbol_size = record { k = k; symbol_size = symbol_size; syms = [] }

-- The `n` entries of index and coefficient from byte `p` on.
unfoldable pub read_cover : ℕ → ℕ → ℕ → Bytes → Assoc ℕ ℕ → Assoc ℕ ℕ
read_cover k zero p wire cover = cover
read_cover k (suc n) p wire cover =
    let idx = from_le (slice p (p + 2) wire) in
    let c = byte_at wire (p + 2) in
    let cover' = if ltb idx k then (if c == 0 then cover else insert idx c cover) else cover in
    read_cover k n (p + 3) wire cover'

-- `Ok(false)` is a row of zeros, which is dropped.
unfoldable pub add : Bytes → FountainDecoder → FountainDecoder × Result FountainError Bool
add wire d =
    let ncoeffs = from_le (slice 0 2 wire) in
    let header_len = 2 + ncoeffs * 3 in
    let cover = read_cover d.k ncoeffs 2 wire [] in
    let payload = slice header_len (header_len + d.symbol_size) wire in
    if ltb (length wire) 2
    then (d, err (size_mismatch (length wire) 2))
    else if ltb (length wire) (header_len + d.symbol_size)
    then (d, err (size_mismatch (length wire) (header_len + d.symbol_size)))
    else if length cover == 0
    then (d, ok false)
    else (record d { syms = d.syms ++ (record { cover = cover; payload = payload } ∷ []) }, ok true)

-- What the peeling works on: the symbols, for each source the symbols that cover it, the degrees, the
-- queue, and the sources found.
pub record Peel : Type 0 where
  pub syms : List ParsedSym
  pub covers : List (List ℕ)
  pub degree : List ℕ
  pub queue : List ℕ
  pub revealed : List (Option Bytes)

abbrev pub no_sym : ParsedSym
no_sym = record { cover = []; payload = [] }

-- The indices from `si` on of the symbols that cover the source.
unfoldable pub covering : ℕ → ℕ → List ParsedSym → List ℕ
covering idx si [] = []
covering idx si (sym ∷ syms) =
    let rest = covering idx (si + 1) syms in
    elim (lookup idx sym.cover) [ none ↦ rest | some c ↦ si ∷ rest ]

unfoldable pub all_covers : ℕ → ℕ → List ParsedSym → List (List ℕ)
all_covers idx zero syms = []
all_covers idx (suc n) syms = covering idx 0 syms ∷ all_covers (idx + 1) n syms

abbrev pub degree_of : ParsedSym → ℕ
degree_of sym = length sym.cover

unfoldable pub degree_one : ℕ → List ℕ → List ℕ
degree_one si [] = []
degree_one si (d ∷ ds) = let rest = degree_one (si + 1) ds in if d == 1 then si ∷ rest else rest

unfoldable pub unrevealed : ℕ → List (Option Bytes)
unrevealed zero = []
unrevealed (suc n) = none ∷ unrevealed n

unfoldable pub start_peel : ℕ → List ParsedSym → Peel
start_peel k syms = record {
  syms = syms;
  covers = all_covers 0 k syms;
  degree = map degree_of syms;
  queue = degree_one 0 (map degree_of syms);
  revealed = unrevealed k;
}

-- The first source of a cover that is not found yet, with its coefficient.
unfoldable pub find_target : List (Option Bytes) → Assoc ℕ ℕ → Option (ℕ × ℕ)
find_target revealed [] = none
find_target revealed ((idx, c) ∷ cover) =
    let rest = find_target revealed cover in
    elim (get_or none revealed idx) [ none ↦ some (idx, c) | some x ↦ rest ]

-- The found source is taken out of one other symbol.
unfoldable pub ripple_one : ℕ → ℕ → Bytes → ℕ → Peel → Peel
ripple_one si target x sj p =
    let d = get_or 0 p.degree sj in
    let sym = get_or no_sym p.syms sj in
    if sj == si then p else if d == 0 then p else elim (lookup target sym.cover) [
      | none ↦ p
      | some c ↦ record p {
        syms =
            set_at sj
              (record { cover = remove target sym.cover; payload = gf_axpy_slice c x sym.payload })
              p.syms;
        degree = set_at sj (d - 1) p.degree;
        queue = if d - 1 == 1 then p.queue ++ (sj ∷ []) else p.queue;
      }
    ]

unfoldable pub ripple : ℕ → ℕ → Bytes → List ℕ → Peel → Peel
ripple si target x [] p = p
ripple si target x (sj ∷ sjs) p = ripple si target x sjs (ripple_one si target x sj p)

-- One symbol from the front of the queue.
unfoldable pub reveal : ℕ → Peel → Peel
reveal si p =
    let sym = get_or no_sym p.syms si in
    if get_or 0 p.degree si == 0 then p else elim (find_target p.revealed sym.cover) [
      | none ↦ record p { degree = set_at si 0 p.degree }
      | some (target, coeff) ↦
          let x = gf_scal_slice (gf_inv coeff) sym.payload in
          let dependents = get_or [] p.covers target in
          let taken : Peel = record p {
            syms = set_at si (record sym { payload = [] }) p.syms;
            covers = set_at target [] p.covers;
            degree = set_at si 0 p.degree;
          } in
          let p' = ripple si target x dependents taken in
          record p' { revealed = set_at target (some x) p'.revealed }
    ]

-- The loop over the queue, on fuel.
unfoldable pub peel : ℕ → Peel → Peel
peel zero p = p
peel (suc fuel) p = elim p.queue [
  | [] ↦ p
  | si ∷ queue ↦ peel fuel (reveal si (record p { queue = queue }))
]

abbrev pub unwrap_or_default : Option Bytes → Bytes
unwrap_or_default none = []
unwrap_or_default (some x) = x

unfoldable pub unknowns_from : ℕ → List (Option Bytes) → List ℕ
unknowns_from i [] = []
unknowns_from i (o ∷ os) =
    let rest = unknowns_from (i + 1) os in elim o [ none ↦ i ∷ rest | some x ↦ rest ]

-- `col[idx]`
unfoldable pub column_of : ℕ → ℕ → List ℕ → ℕ
column_of idx c [] = 0
column_of idx c (u ∷ us) = let rest = column_of idx (c + 1) us in if u == idx then c else rest

-- The coefficients of a row over the unknowns; none if it has none.
unfoldable pub residual_coeffs :
    List (Option Bytes) → List ℕ → Assoc ℕ ℕ → Bytes × Bool → Bytes × Bool
residual_coeffs revealed unknowns [] acc = acc
residual_coeffs revealed unknowns ((idx, c) ∷ cover) (row, has) =
    let col = column_of idx 0 unknowns in
    elim (get_or none revealed idx) [
      | some x ↦ residual_coeffs revealed unknowns cover (row, has)
      | none ↦
          residual_coeffs revealed unknowns cover
            (set_at col (bit_xor (get_or 0 row col) c) row, true)
    ]

-- The rows of the residual system, without the symbols that were consumed.
unfoldable pub residual_rows : List (Option Bytes) → List ℕ → List ParsedSym → List Bytes
residual_rows revealed unknowns [] = []
residual_rows revealed unknowns (sym ∷ syms) =
    let rest = residual_rows revealed unknowns syms in
    let (row, has) =
      residual_coeffs revealed unknowns sym.cover (replicate (length unknowns) 0, false) in
    if length sym.payload == 0 then rest else if has then (row ++ sym.payload) ∷ rest else rest

-- The first column with an entry, up to `r`.
unfoldable pub lead_column : ℕ → ℕ → Bytes → ℕ
lead_column zero i row = i
lead_column (suc n) i [] = i
lead_column (suc n) i (b ∷ row) = if b == 0 then lead_column n (i + 1) row else i

-- The solved rows, written back.
unfoldable pub write_rows : ℕ → List ℕ → List Bytes → List (Option Bytes) → List (Option Bytes)
write_rows r unknowns [] revealed = revealed
write_rows r unknowns (row ∷ rows) revealed =
    let piv = lead_column r 0 row in
    write_rows r unknowns rows
      (if ltb piv r then set_at (get_or 0 unknowns piv) (some (drop r row)) revealed else revealed)

unfoldable pub solve_residual : ℕ → ℕ → Peel → Result FountainError (List Bytes)
solve_residual k s p =
    let unknowns = unknowns_from 0 p.revealed in
    let r = length unknowns in
    let (rows, rank) = gf_gauss_eliminate (r + s) r (residual_rows p.revealed unknowns p.syms) in
    let revealed = write_rows r unknowns rows p.revealed in
    if ltb rank r
    then err (underdetermined rank r)
    else if length (unknowns_from 0 revealed) == 0
    then ok (map unwrap_or_default revealed)
    else err (underdetermined rank k)

-- The symbols are changed in place, also when the result is an error.
unfoldable pub peel_symbols :
    List ParsedSym → ℕ → ℕ → List ParsedSym × Result FountainError (List Bytes)
peel_symbols syms k s =
    let p = peel (length syms) (start_peel k syms) in
    (
      p.syms,
      (if length (unknowns_from 0 p.revealed) == 0
          then ok (map unwrap_or_default p.revealed)
          else solve_residual k s p),
    )

unfoldable pub decode : FountainDecoder → FountainDecoder × Result FountainError (List Bytes)
decode d =
    let (syms, result) = peel_symbols d.syms d.k d.symbol_size in
    if ltb (length d.syms) d.k
    then (d, err (underdetermined (length d.syms) d.k))
    else (record d { syms = syms }, result)
