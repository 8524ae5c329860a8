-- ===== src/Terminal/Screen.antt =====
-- A terminal as the renderer uses it: a reader of bytes that places the cursor (`ESC [ r ; c H`),
-- saves and restores it (`ESC [ s`, `ESC [ u`), and puts each other byte under the cursor. Rows and
-- columns count from 1. It is wide enough for what is written, so that no line is wrapped.
use go_cli_messenger.Common.{
  ℕ, zero, suc, ◌+◌, ◌-◌, ◌*◌, ◌<◌, ◌≡◌, refl, ap, ◌∙◌, Bool, true, ◌&&◌, ◌==◌, leb, ltb,
  if◌then◌else◌, List, [], ◌∷◌, ◌++◌, all_of, length, Text, arith,
}
use go_cli_messenger.Common.Decimal.{decimal, read-decimal}

-- `params done n`: the parameters read so far, and the one that is being read.
pub data Mode : Type 0 where
  plain escape : Mode
  params : List ℕ → ℕ → Mode

pub record Screen : Type 0 where
  pub mode : Mode
  pub row : ℕ
  pub column : ℕ
  pub saved_row : ℕ
  pub saved_column : ℕ
  pub grid : ℕ → ℕ → ℕ

unfoldable pub put_cell : ℕ → ℕ → ℕ → (ℕ → ℕ → ℕ) → ℕ → ℕ → ℕ
put_cell r c x grid i j = if i == r && j == c then x else grid i j

-- The commands; those that the renderer does not use change nothing.
abbrev command : ℕ → List ℕ → Screen → Screen
command k (r ∷ c ∷ []) s =
    if k == b'H' then record s { mode = plain; row = r; column = c } else record s { mode = plain }
command k ps s =
    if k == b's'
    then record s { mode = plain; saved_row = s.row; saved_column = s.column }
    else if k == b'u'
    then record s { mode = plain; row = s.saved_row; column = s.saved_column }
    else record s { mode = plain }

-- One byte, by the mode.
unfoldable pub feed : Mode → ℕ → Screen → Screen
unfolding put_cell
feed plain c s =
    if c == 0x1B
    then record s { mode = escape }
    else record s { grid = put_cell s.row s.column c s.grid; column = s.column + 1 }
feed escape c s = if c == b'[' then record s { mode = params [] 0 } else record s { mode = plain }
feed (params done n) c s =
    if leb b'0' c && leb c b'9'
    then record s { mode = params done (n * 10 + (c - b'0')) }
    else if c == b';'
    then record s { mode = params (done ++ n ∷ []) 0 }
    else command c (done ++ n ∷ []) s

unfoldable pub run : Text → Screen → Screen
unfolding feed
run [] s = s
run (c ∷ cs) s = run cs (feed s.mode c s)

pub run-append : (xs ys : Text) (s : Screen) → run (xs ++ ys) s ≡ run ys (run xs s)
unfolding run
run-append [] ys s = refl
run-append (x ∷ xs) ys s = run-append xs ys (feed s.mode x s)

-- The cells after a run of bytes written from (r, c) on.
unfoldable pub write_at : ℕ → ℕ → Text → (ℕ → ℕ → ℕ) → ℕ → ℕ → ℕ
unfolding put_cell
write_at r c [] grid = grid
write_at r c (x ∷ xs) grid = write_at r (c + 1) xs (put_cell r c x grid)

-- `cells[k]`, for an index in range.
unfoldable pub cell_at : Text → ℕ → ℕ
cell_at [] k = 0
cell_at (x ∷ xs) zero = x
cell_at (x ∷ xs) (suc k) = cell_at xs k

cell_at-suc : (x : ℕ) (xs : Text) (k : ℕ) → 0 < k → cell_at (x ∷ xs) k ≡ cell_at xs (k - 1)
unfolding cell_at
cell_at-suc x xs zero h = absurd (omega arith)
cell_at-suc x xs (suc k) h = ap (cell_at xs) (omega arith)

cell_at-zero : (x : ℕ) (xs : Text) (k : ℕ) → k ≡ 0 → cell_at (x ∷ xs) k ≡ x
unfolding cell_at
cell_at-zero x xs zero h = refl
cell_at-zero x xs (suc k) h = absurd (omega arith)

-- A written run shows its bytes, and nothing else changes.
pub write_at-cell :
    (r c : ℕ) (xs : Text) (grid : ℕ → ℕ → ℕ) (i j : ℕ)
    → write_at r c xs grid i j
      ≡ (if i == r && leb c j && ltb j (c + length xs) then cell_at xs (j - c) else grid i j)
unfolding write_at put_cell
write_at-cell r c [] grid i j = ground arith
write_at-cell r c (x ∷ xs) grid i j =
    write_at-cell r (c + 1) xs (put_cell r c x grid) i j
    ∙ ground (arith, cell_at-suc x xs (j - c), cell_at-zero x xs (j - c), index)
  where
    index : j - c - 1 ≡ j - (c + 1)
    index = omega arith

abbrev pub is_printable : ℕ → Bool
is_printable c = leb 0x20 c && leb c 0x7E

pub run_printable :
    (xs : Text) (s : Screen)
    → s.mode ≡ plain
    → all_of is_printable xs ≡ true
    → run xs s
      ≡ record s { grid = write_at s.row s.column xs s.grid; column = s.column + length xs }
unfolding run write_at feed
run_printable [] s m h = ground arith
run_printable (x ∷ xs) s m h = ground (
  arith,
  run_printable xs (record s { grid = put_cell s.row s.column x s.grid; column = s.column + 1 }),
)

-- `ESC [ r ; c H`
abbrev pub cursor_to : ℕ → ℕ → Text
cursor_to r c = 0x1B ∷ b'[' ∷ decimal r ++ (b';' ∷ decimal c ++ b'H' ∷ [])

run-decimal :
    (done : List ℕ) (s : Screen) (n : ℕ)
    → run (decimal n) (record s { mode = params done 0 }) ≡ record s { mode = params done n }
unfolding run feed
run-decimal done s n =
    read-decimal (λ k. record s { mode = params done k }) run run-append (λ k d h. ground arith) n

pub run-cursor_to :
    (r c : ℕ) (s : Screen)
    → s.mode ≡ plain
    → run (cursor_to r c) s ≡ record s { row = r; column = c }
unfolding run feed
run-cursor_to r c s m =
    run-append (0x1B ∷ b'[' ∷ decimal r) (b';' ∷ decimal c ++ b'H' ∷ []) s
    ∙ ap (run (b';' ∷ decimal c ++ b'H' ∷ [])) (opened ∙ run-decimal [] s r)
    ∙ run-append (b';' ∷ decimal c) (b'H' ∷ []) (record s { mode = params [] r })
    ∙ ap (run (b'H' ∷ [])) (run-decimal (r ∷ []) s c)
    ∙ ground arith
  where
    opened : run (0x1B ∷ b'[' ∷ decimal r) s ≡ run (decimal r) (record s { mode = params [] 0 })
    opened = ground arith
