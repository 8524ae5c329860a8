-- ===== src/Terminal/Video/Runs.antt =====
-- Writing a slice of printable cells at a place of the screen.
use mathlib.Core.List.{append_assoc}
use go_cli_messenger.Common.{
  ℕ, zero, suc, ◌+◌, ◌-◌, ◌≤◌, ◌<◌, ◌≡◌, refl, sym, ap, ◌∙◌, Bool, true, ◌&&◌, ◌==◌, leb, ltb,
  if◌then◌else◌, [], ◌∷◌, ◌++◌, all_of, length, take, drop, Text, arith,
}
use go_cli_messenger.Terminal.Screen.{
  Screen, plain, run, run-append, run_printable, run-cursor_to, write_at, write_at-cell, cell_at,
  cursor_to, is_printable,
}
use go_cli_messenger.Terminal.Video.{slice}

-- A slice of printable cells in range.
take_lem :
    (n : ℕ) (xs : Text) (k : ℕ)
    → n ≤ length xs
    → (length (take n xs) ≡ n) × (k < n → cell_at (take n xs) k ≡ cell_at xs k)
unfolding cell_at
take_lem zero xs k h = ground arith
take_lem (suc n) [] k h = absurd (omega arith)
take_lem (suc n) (x ∷ xs) zero h = (ap suc (take_lem n xs 0 (omega arith)).0, λ l. refl)
take_lem (suc n) (x ∷ xs) (suc k) h =
    let (size, cells) = take_lem n xs k (omega arith) in (ap suc size, λ l. cells (omega arith))

drop_lem :
    (n : ℕ) (xs : Text) (k : ℕ)
    → (length (drop n xs) ≡ length xs - n) × (cell_at (drop n xs) k ≡ cell_at xs (n + k))
unfolding cell_at
drop_lem zero xs k = ground arith
drop_lem (suc n) [] k = (omega arith, refl)
drop_lem (suc n) (x ∷ xs) k =
    let (size, cells) = drop_lem n xs k in (omega (arith, size), ground arith)

all_of-take : (p : ℕ → Bool) (n : ℕ) (xs : Text) → all_of p xs ≡ true → all_of p (take n xs) ≡ true
all_of-take p zero xs h = refl
all_of-take p (suc n) [] h = refl
all_of-take p (suc n) (x ∷ xs) h = ground (arith, all_of-take p n xs)

all_of-drop : (p : ℕ → Bool) (n : ℕ) (xs : Text) → all_of p xs ≡ true → all_of p (drop n xs) ≡ true
all_of-drop p zero xs h = h
all_of-drop p (suc n) [] h = refl
all_of-drop p (suc n) (x ∷ xs) h = all_of-drop p n xs (ground arith)

slice_lem :
    (cells : Text) (i j k : ℕ)
    → i ≤ j
    → j ≤ length cells
    → (length (slice cells i j) ≡ j - i)
      × (k < j - i → cell_at (slice cells i j) k ≡ cell_at cells (i + k))
slice_lem cells i j k h l =
    let (size, at) = drop_lem i cells k in
    let (short, cell) = take_lem (j - i) (drop i cells) k (omega (arith, size)) in
    (short, λ b. cell b ∙ at)

-- The screen shows these cells, reads plain bytes, and has the saved cursor of before.
pub record Shows (s : Screen) (shown : ℕ → ℕ → ℕ) (t : Screen) : Type 0 where
  pub reads : t.mode ≡ plain
  pub saved_row : t.saved_row ≡ s.saved_row
  pub saved_column : t.saved_column ≡ s.saved_column
  pub grid : (i j : ℕ) → t.grid i j ≡ shown i j

pub run-nil-Shows :
    {s : Screen} {a : ℕ → ℕ → ℕ}
    → s.mode ≡ plain
    → ((y x : ℕ) → s.grid y x ≡ a y x)
    → Shows s a (run [] s)
unfolding run
run-nil-Shows m e = record { reads = m; saved_row = refl; saved_column = refl; grid = e }

pub run-drawn :
    (xs ys rest : Text) (s : Screen) → run (xs ++ (ys ++ rest)) s ≡ run rest (run (xs ++ ys) s)
run-drawn xs ys rest s =
    ap (λ t. run t s) (sym (append_assoc xs ys rest)) ∙ run-append (xs ++ ys) rest s

-- A grid with other cells where the test holds.
abbrev pub over : (ℕ → ℕ → Bool) → (ℕ → ℕ → ℕ) → (ℕ → ℕ → ℕ) → ℕ → ℕ → ℕ
over test new old y x = if test y x then new y x else old y x

pub Shows-ext :
    {s t : Screen} {a b : ℕ → ℕ → ℕ} → Shows s a t → ((y x : ℕ) → a y x ≡ b y x) → Shows s b t
Shows-ext v e = record {
  reads = v.reads;
  saved_row = v.saved_row;
  saved_column = v.saved_column;
  grid = λ y x. v.grid y x ∙ e y x;
}

pub Shows-over :
    {s t u : Screen} {a : ℕ → ℕ → ℕ} (test : ℕ → ℕ → Bool) (new : ℕ → ℕ → ℕ)
    → Shows s a t
    → Shows t (over test new t.grid) u
    → Shows s (over test new a) u
Shows-over test new v w = record {
  reads = w.reads;
  saved_row = w.saved_row ∙ v.saved_row;
  saved_column = w.saved_column ∙ v.saved_column;
  grid = λ y x. w.grid y x ∙ ground (arith, v.grid y x);
}

-- The grid after the cells i to j of a picture are written from (r, c) on.
abbrev pub with_run : Text → ℕ → ℕ → ℕ → ℕ → (ℕ → ℕ → ℕ) → ℕ → ℕ → ℕ
with_run cells i j r c old y x =
    if y == r && leb c x && ltb x (c + (j - i)) then cell_at cells (i + (x - c)) else old y x

pub run-slice-Shows :
    (r c i j : ℕ) (cells : Text) (s : Screen)
    → s.mode ≡ plain
    → all_of is_printable cells ≡ true
    → i ≤ j
    → j ≤ length cells
    → Shows s (with_run cells i j r c s.grid) (run (cursor_to r c ++ slice cells i j) s)
run-slice-Shows r c i j cells s m p h l = rw whole record {
  reads = m;
  saved_row = refl;
  saved_column = refl;
  grid = λ y x.
      write_at-cell r c (slice cells i j) s.grid y x
      ∙ ground (arith, slice_lem cells i j (x - c) h l);
}
  where
    whole : run (cursor_to r c ++ slice cells i j) s ≡ record s {
      row = r;
      column = c + length (slice cells i j);
      grid = write_at r c (slice cells i j) s.grid;
    }
    whole =
        run-append (cursor_to r c) (slice cells i j) s
        ∙ ap (run (slice cells i j)) (run-cursor_to r c s m)
        ∙ run_printable (slice cells i j) (record s { row = r; column = c }) m
            (all_of-take is_printable (j - i) (drop i cells) (all_of-drop is_printable i cells p))
