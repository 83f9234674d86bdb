-- ===== src/Transaction/Bounds/Raw.antt =====
-- The raw result bound of one compiled envelope against the text of any result that the compiled
-- limits admit (bounds.rs, `raw_result_bound`).
use policysql.Prelude.{ℕ, ◌+◌, ◌*◌, ◌≤◌, List, [], ◌∷◌, length, arith, sat_add, sat_mul, u64_max}
use policysql.Transaction.Bounds.{columns_of, cells_from, raw_result_bound}

-- Rows that a result may hold: for each statement at most its row limit.
abbrev pub WithinLimits : List ℕ → List (ℕ × ℕ) → Type 0
WithinLimits [] [] = Unit
WithinLimits [] ((limit, columns) ∷ rest) = ⊥
WithinLimits (rows ∷ more) [] = ⊥
WithinLimits (rows ∷ more) ((limit, columns) ∷ rest) = (rows ≤ limit) × WithinLimits more rest

-- The cells and the column descriptors that a result holds.
abbrev pub cells_held : List ℕ → List (ℕ × ℕ) → ℕ
cells_held [] statements = 0
cells_held (rows ∷ more) [] = 0
cells_held (rows ∷ more) ((limit, columns) ∷ rest) = rows * columns + cells_held more rest

abbrev pub columns_held : List (ℕ × ℕ) → ℕ
columns_held [] = 0
columns_held ((limit, columns) ∷ rest) = columns + columns_held rest

columns_of-le : (statements : List (ℕ × ℕ)) → columns_of statements ≤ columns_held statements
unfolding columns_of
columns_of-le [] = omega arith
columns_of-le ((limit, columns) ∷ rest) = omega (arith, columns_of-le rest)

row_mono : (r l c : ℕ) → r ≤ l → r * c ≤ l * c
row_mono r l c h = grind arith

cells_from_mono :
    (a b : ℕ) (statements : List (ℕ × ℕ))
    → a ≤ b
    → cells_from a statements ≤ cells_from b statements
unfolding cells_from
cells_from_mono a b [] h = h
cells_from_mono a b ((l, c) ∷ rest) h =
    cells_from_mono (sat_add a (sat_mul l c)) (sat_add b (sat_mul l c)) rest (omega arith)

cells_from-covers :
    (total : ℕ) (held : List ℕ) (statements : List (ℕ × ℕ))
    → WithinLimits held statements
    → total + cells_held held statements ≤ u64_max
    → total + cells_held held statements ≤ cells_from total statements
unfolding cells_from
cells_from-covers total [] [] w h = omega arith
cells_from-covers total [] ((l, c) ∷ rest) w h = absurd w
cells_from-covers total (r ∷ more) [] w h = absurd w
cells_from-covers total (r ∷ more) ((l, c) ∷ rest) w h =
    let covered = cells_from-covers (total + r * c) more rest w.1 (omega arith) in
    let wider =
      cells_from_mono (total + r * c) (sat_add total (sat_mul l c)) rest
        (omega (arith, row_mono r l c w.0)) in
    omega arith

-- A result that the compiled limits admit is never cut: if each statement returns at most its row
-- limit, cells and column descriptors together pass no more than the value limit, and the text is
-- made of at most twice the result bytes, 64 bytes a cell, 512 a statement, the column metadata,
-- and 1,024 of envelope, then that text (a length of the address space) is within the bound.
pub raw_result_bound-covers :
    (p v : ℕ) (held : List ℕ) (statements : List (ℕ × ℕ)) (m bytes : ℕ)
    → WithinLimits held statements
    → cells_held held statements + columns_held statements ≤ v
    → v ≤ u64_max
    → bytes ≤ 2 * p + 64 * cells_held held statements + 512 * length statements + m + 1024
    → bytes ≤ u64_max
    → bytes ≤ raw_result_bound p v statements m
unfolding raw_result_bound
raw_result_bound-covers p v held statements m bytes w fits word text small =
    omega (arith, cells_from-covers 0 held statements w (omega arith), columns_of-le statements)
