-- ===== src/Terminal/Video/Drawn.antt =====
-- What the loop over the columns of a row draws: the cells that changed, and no others.
use go_cli_messenger.Common.{
  ℕ, zero, suc, ◌+◌, ◌-◌, ◌*◌, ◌≤◌, ◌<◌, ◌≡◌, inl, inr, Bool, true, false, ◌&&◌, not, ◌==◌, ==_iff,
  leb, ltb, Bool-cases, ◌++◌, all_of, length, Text, arith,
}
use go_cli_messenger.Terminal.Screen.{Screen, plain, run, cell_at, cursor_to, is_printable}
use go_cli_messenger.Terminal.Video.{slice, kept, run_end, row_from}
use go_cli_messenger.Terminal.Video.Runs.{
  Shows, run-nil-Shows, run-drawn, over, Shows-ext, Shows-over, with_run, run-slice-Shows,
}

module _ (full : Bool) (previous cells : Text) (columns row : ℕ) where
  -- The run ends within the row, and every cell of it has changed.
  run_end_lem :
      (left column k : ℕ)
      → (column ≤ run_end full previous cells columns row left column)
        × (run_end full previous cells columns row left column ≤ column + left)
        × (column ≤ k
            → k < run_end full previous cells columns row left column
            → kept full previous cells (row * columns + k) ≡ false)
  unfolding run_end
  run_end_lem zero column k = ground arith
  run_end_lem (suc left) column k =
      let (low, high, changed) = run_end_lem left (column + 1) k in
      elim (Bool-cases (kept full previous cells (row * columns + column))) [
        | inl same ↦ rw same (ground arith)
        | inr new ↦ rw new (
          omega arith,
          omega arith,
          λ a b. elim (Bool-cases (k == column)) [
            | inl e ↦ rw ((==_iff k column).0 e) new
            | inr e ↦ changed (ground arith) b
          ],
        )
      ]

  run_end-moves :
      (left column : ℕ)
      → 0 < left
      → kept full previous cells (row * columns + column) ≡ false
      → column < run_end full previous cells columns row left column
  unfolding run_end
  run_end-moves zero column h new = elim h [ ]
  run_end-moves (suc left) column h new =
      rw new (omega (arith, (run_end_lem left (column + 1) 0).0))

  -- The cells of the row from `column` on that have changed.
  abbrev pub in_row : ℕ → ℕ → ℕ → Bool
  in_row column y x =
      y == row + 1
      && ltb column x
      && leb x columns
      && not (kept full previous cells (row * columns + (x - 1)))

  abbrev pub row_cell : ℕ → ℕ → ℕ
  row_cell y x = cell_at cells (row * columns + (x - 1))

  module _ (column : ℕ) (old : ℕ → ℕ → ℕ) (y x : ℕ) where
    over-in_row-skip :
        kept full previous cells (row * columns + column) ≡ true
        → over (in_row (column + 1)) row_cell old y x ≡ over (in_row column) row_cell old y x
    over-in_row-skip same = elim (Bool-cases (x == column + 1)) [
      | inl e ↦ rw ((==_iff x (column + 1)).0 e) (ground (arith, shift))
      | inr e ↦ ground arith
    ]
      where
        shift : row * columns + (column + 1 - 1) ≡ row * columns + column
        shift = omega arith

    over-in_row-run :
        (stop : ℕ)
        → column ≤ stop
        → stop ≤ columns
        → (column + 1 ≤ x → x ≤ stop → kept full previous cells (row * columns + (x - 1)) ≡ false)
        → over
            (in_row stop)
            row_cell
            (with_run cells
              (row * columns + column)
              (row * columns + stop)
              (row + 1)
              (column + 1)
              old)
            y
            x
          ≡ over (in_row column) row_cell old y x
    over-in_row-run stop low high changed = ground (arith, same)
      where
        same :
            column + 1 ≤ x → row * columns + column + (x - (column + 1)) ≡ row * columns + (x - 1)
        same h = omega arith

  pub run-row_from-Shows :
      (f column : ℕ) (s : Screen)
      → s.mode ≡ plain
      → all_of is_printable cells ≡ true
      → row * columns + columns ≤ length cells
      → columns < f + column
      → Shows s
          (over (in_row column) row_cell s.grid)
          (run (row_from full previous cells columns row f column) s)
  unfolding row_from
  run-row_from-Shows zero column s m p l h = run-nil-Shows m (λ y x. ground arith)
  run-row_from-Shows (suc f) column s m p l h = elim (Bool-cases (ltb column columns)) [
    | inr past ↦ rw past (run-nil-Shows m (λ y x. ground arith))
    | inl inside ↦ elim (Bool-cases (kept full previous cells (row * columns + column))) [
      | inl same ↦
          rw (inside, same)
            (Shows-ext (run-row_from-Shows f (column + 1) s m p l (omega arith))
              (λ y x. over-in_row-skip column s.grid y x same))
      | inr new ↦
          let stop = run_end full previous cells columns row (columns - column) column in
          let i = row * columns + column in
          let (low, high, _) = run_end_lem (columns - column) column 0 in
          let moves = run_end-moves (columns - column) column (ground arith) new in
          let v =
            run-slice-Shows (row + 1) (column + 1) i (row * columns + stop) cells s m p
              (omega arith) (ground arith) in
          let w =
            run-row_from-Shows f stop
              (run (cursor_to (row + 1) (column + 1) ++ slice cells i (row * columns + stop)) s)
              v.reads p l (omega arith) in
          rw
            (
              inside,
              new,
              run-drawn (cursor_to (row + 1) (column + 1)) (slice cells i (row * columns + stop))
                  (row_from full previous cells columns row f stop) s,
            )
            (Shows-ext (Shows-over (in_row stop) row_cell v w) (λ y x.
              over-in_row-run column s.grid y x stop low (ground arith) (λ a b.
                (run_end_lem (columns - column) column (x - 1)).2 (omega arith) (omega arith))))
    ]
  ]
