-- ===== src/AsciiVideo/Convert.antt =====
-- internal/client/asciivideo/convert.go: a grey picture as cells. The sizes are not negative; an index
-- outside of the picture would read as 0, which is no cell.
use Prim.Native.Nat.{◌*◌, ◌/◌}
use go_cli_messenger.Common.{
  ℕ, zero, suc, ◌+◌, ◌<◌, ◌≡◌, refl, ◌∙◌, if_intro, Bool, true, ◌||◌, not, ◌==◌, ltb, if◌then◌else◌,
  [], ◌∷◌, ◌++◌, length, length-append, all_of, Text, codes, arith,
}
use go_cli_messenger.AsciiVideo.Wire.{Result, ok, err, invalid_frame}
use go_cli_messenger.AsciiVideo.Codec.{is_cell}

abbrev default_charset : Text
default_charset = codes " .,:;irsXA253hMHGS#9B&@"

unfoldable at : Text → ℕ → ℕ
at [] i = 0
at (c ∷ s) zero = c
at (c ∷ s) (suc i) = at s i

unfoldable row_from : (ℕ → ℕ) → ℕ → ℕ → Text
row_from cell column zero = []
row_from cell column (suc n) = cell column ∷ row_from cell (column + 1) n

unfoldable rows_from : (ℕ → Text) → ℕ → ℕ → Text
rows_from line row zero = []
rows_from line row (suc n) = line row ++ rows_from line (row + 1) n

-- Two pixels, one below the other, are one cell.
unfoldable cell_of : Text → ℕ → ℕ → ℕ → ℕ
unfolding at
cell_of pixels source_columns row column =
    let top = at pixels (row * 2 * source_columns + column) in
    let bottom = at pixels ((row * 2 + 1) * source_columns + column) in
    at default_charset ((top + bottom) / 2 * 22 / 255)

abbrev cells_of : Text → ℕ → ℕ → ℕ → Text
cells_of pixels source_columns columns rows =
    rows_from (λ row. row_from (cell_of pixels source_columns row) 0 columns) 0 rows

-- `FromGray`
unfoldable pub from_gray : Text → ℕ → ℕ → ℕ → ℕ → Result Text
unfolding rows_from row_from cell_of
from_gray pixels source_columns source_rows columns rows =
    if not (source_columns == columns)
      || not (source_rows == rows * 2)
      || not (length pixels == source_columns * source_rows)
    then err invalid_frame
    else ok (cells_of pixels source_columns columns rows)

abbrev pub is_byte : ℕ → Bool
is_byte c = ltb c 256

at-is_byte : (s : Text) (i : ℕ) → all_of is_byte s ≡ true → at s i < 256
unfolding at
at-is_byte [] i h = omega arith
at-is_byte (c ∷ s) zero h = ground arith
at-is_byte (c ∷ s) (suc i) h = at-is_byte s i (ground arith)

at-is_cell : (s : Text) (i : ℕ) → all_of is_cell s ≡ true → i < length s → is_cell (at s i) ≡ true
unfolding at
at-is_cell [] i h k = ground arith
at-is_cell (c ∷ s) zero h k = ground arith
at-is_cell (c ∷ s) (suc i) h k = at-is_cell s i (ground arith) (ground arith)

cell_of-is_cell :
    (pixels : Text) (source_columns row column : ℕ)
    → all_of is_byte pixels ≡ true
    → is_cell (cell_of pixels source_columns row column) ≡ true
unfolding cell_of
cell_of-is_cell pixels source_columns row column h =
    let top = at-is_byte pixels (row * 2 * source_columns + column) h in
    let bottom = at-is_byte pixels ((row * 2 + 1) * source_columns + column) h in
    at-is_cell default_charset
      ((at pixels (row * 2 * source_columns + column)
          + at pixels ((row * 2 + 1) * source_columns + column))
        / 2
        * 22
        / 255)
      refl (omega (arith, top, bottom))

row_from-cells :
    (cell : ℕ → ℕ) (column n : ℕ)
    → ((i : ℕ) → is_cell (cell i) ≡ true)
    → (length (row_from cell column n) ≡ n) × (all_of is_cell (row_from cell column n) ≡ true)
unfolding row_from
row_from-cells cell column zero h = (refl, refl)
row_from-cells cell column (suc n) h =
    let (size, cells) = row_from-cells cell (column + 1) n h in
    (ground (arith, size), ground (arith, h column, cells))

all_cells-append :
    (s t : Text)
    → all_of is_cell s ≡ true
    → all_of is_cell t ≡ true
    → all_of is_cell (s ++ t) ≡ true
all_cells-append [] t h k = k
all_cells-append (c ∷ s) t h k = ground (arith, all_cells-append s t)

rows_from-cells :
    (line : ℕ → Text) (columns row n : ℕ)
    → ((i : ℕ) → (length (line i) ≡ columns) × (all_of is_cell (line i) ≡ true))
    → (length (rows_from line row n) ≡ columns * n) × (all_of is_cell (rows_from line row n) ≡ true)
unfolding rows_from
rows_from-cells line columns row zero h = (omega arith, refl)
rows_from-cells line columns row (suc n) h =
    let (size, cells) = rows_from-cells line columns (row + 1) n h in
    let (width, good) = h row in
    (
      length-append (line row) (rows_from line (row + 1) n) ∙ rw (width, size) (grind arith),
      all_cells-append (line row) (rows_from line (row + 1) n) good cells,
    )

-- A picture of bytes that is converted has one cell for each two pixels, and all cells are printable
-- ASCII: an encoder of this size takes it.
pub from_gray-cells :
    (pixels cells : Text) (source_columns source_rows columns rows : ℕ)
    → all_of is_byte pixels ≡ true
    → from_gray pixels source_columns source_rows columns rows ≡ ok cells
    → (length cells ≡ columns * rows)
      × (length pixels ≡ 2 * length cells)
      × (all_of is_cell cells ≡ true)
unfolding from_gray
from_gray-cells pixels cells source_columns source_rows columns rows bytes =
    if_intro
      (λ x.
        x ≡ ok cells
        → (length cells ≡ columns * rows)
          × (length pixels ≡ 2 * length cells)
          × (all_of is_cell cells ≡ true))
      (not (source_columns == columns)
        || not (source_rows == rows * 2)
        || not (length pixels == source_columns * source_rows))
      _ _ (λ t h. ground arith)
      (λ t h.
        let same : cells_of pixels source_columns columns rows ≡ cells = ground arith in
        let (size, good) =
          rows_from-cells (λ row. row_from (cell_of pixels source_columns row) 0 columns) columns 0
            rows
            (λ row.
              row_from-cells (cell_of pixels source_columns row) 0 columns
                (λ column. cell_of-is_cell pixels source_columns row column bytes)) in
        let wide : source_columns ≡ columns = ground arith in
        let high : source_rows ≡ rows * 2 = ground arith in
        let all : length pixels ≡ source_columns * source_rows = ground arith in
        rw (← same) (size, all ∙ rw (size, wide, high) (grind arith), good))
