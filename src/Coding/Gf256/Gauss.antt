-- ===== src/Coding/Gf256/Gauss.antt =====
-- crates/coding/src/gf256.rs: Gaussian elimination. The flat matrix is a list of its rows.
use dlr.Prelude.{
  ℕ, zero, suc, ◌+◌, List, [], ◌∷◌, length, get_elem?, Option, none, some, ltb, ◌==◌, if◌then◌else◌,
  set_at,
}
use dlr.Core.Bytes.{Bytes}
use dlr.Coding.Gf256.{at, gf_inv, gf_scal_slice, gf_axpy_slice}

-- A row that is in the matrix.
abbrev row_at : List Bytes → ℕ → Bytes
row_at rows i = elim (get_elem? rows i) [ none ↦ [] | some row ↦ row ]

-- The first of the rows from `r` on with an entry in the column.
unfoldable pub find_pivot : ℕ → ℕ → ℕ → List Bytes → Option ℕ
find_pivot col rank r [] = none
find_pivot col rank r (row ∷ rows) =
    let rest = find_pivot col rank (r + 1) rows in
    if ltb r rank then rest else if at row col == 0 then rest else some r

-- `rr ^= f * prow` for every row but the pivot's.
unfoldable pub eliminate_rows : ℕ → ℕ → Bytes → ℕ → List Bytes → List Bytes
eliminate_rows col rank prow r [] = []
eliminate_rows col rank prow r (row ∷ rows) =
    let rest = eliminate_rows col rank prow (r + 1) rows in
    let f = at row col in
    if r == rank then row ∷ rest else if f == 0 then row ∷ rest else gf_axpy_slice f prow row ∷ rest

-- The row `p` is swapped up, normalized, and taken from the others.
unfoldable pub pivot_step : ℕ → ℕ → ℕ → List Bytes → List Bytes
pivot_step col rank p rows =
    let swapped = set_at p (row_at rows rank) (set_at rank (row_at rows p) rows) in
    let pivot = row_at swapped rank in
    let prow = gf_scal_slice (gf_inv (at pivot col)) pivot in
    eliminate_rows col rank prow 0 (set_at rank prow swapped)

-- The columns from `col` on, `m` of them.
unfoldable pub gauss_columns : ℕ → ℕ → ℕ → List Bytes → List Bytes × ℕ
gauss_columns zero col rank rows = (rows, rank)
gauss_columns (suc m) col rank rows = elim (find_pivot col rank 0 rows) [
  | none ↦ gauss_columns m (col + 1) rank rows
  | some p ↦
      let rows' = pivot_step col rank p rows in
      let rest = gauss_columns m (col + 1) (rank + 1) rows' in
      if rank + 1 == length rows then (rows', rank + 1) else rest
]

unfoldable pub gf_gauss_eliminate : ℕ → ℕ → List Bytes → List Bytes × ℕ
gf_gauss_eliminate row_len k rows = if row_len == 0 then (rows, 0) else gauss_columns k 0 0 rows
