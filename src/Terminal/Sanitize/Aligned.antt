-- ===== src/Terminal/Sanitize/Aligned.antt =====
-- How wide an aligned line is, and what fits into the terminal.
use go_cli_messenger.Common.{
  ℕ, zero, suc, ◌+◌, ◌-◌, ◌≤◌, ◌<◌, ◌≡◌, refl, ap, ◌∙◌, inl, inr, true, leb, if◌then◌else◌, some,
  ◌++◌, length, length-append, Text, arith, Bool-cases,
}
use go_cli_messenger.Terminal.Runes.{decode_rune}
use go_cli_messenger.Terminal.Sanitize.{
  rune_count_from, rune_count, spaces, right_align, video_size,
}

length-spaces : (n : ℕ) → length (spaces n) ≡ n
unfolding spaces
length-spaces zero = refl
length-spaces (suc n) = ap suc (length-spaces n)

rune_count-spaces :
    (n f : ℕ) (s : Text) → rune_count_from (n + f) (spaces n ++ s) ≡ n + rune_count_from f s
unfolding rune_count_from spaces decode_rune
rune_count-spaces zero f s = ground arith
rune_count-spaces (suc n) f s =
    ap (λ k. rune_count_from k (spaces (suc n) ++ s)) sum ∙ ground (arith, rune_count-spaces n f s)
  where
    sum : suc n + f ≡ suc (n + f)
    sum = omega arith

spaces-widen : (n : ℕ) (s : Text) → rune_count (spaces n ++ s) ≡ n + rune_count s
unfolding rune_count
spaces-widen n s =
    ap (λ k. rune_count_from k (spaces n ++ s)) size ∙ rune_count-spaces n (length s) s
  where
    size : length (spaces n ++ s) ≡ n + length s
    size = omega (arith, length-append (spaces n) s, length-spaces n)

-- An aligned text is as wide as the terminal, or as wide as it was where it is wider.
pub rune_count-right_align :
    (value : Text) (width : ℕ)
    → rune_count (right_align value width)
      ≡ (if leb width (rune_count value) then rune_count value else width)
unfolding right_align
rune_count-right_align value width = elim (Bool-cases (leb width (rune_count value))) [
  | inl wide ↦ rw wide refl
  | inr short ↦ rw short (spaces-widen (width - rune_count value) value ∙ ground arith)
]

-- The picture fits the terminal beside the four rows of the chat, and the profile, whenever these
-- have room for one cell.
pub video_size_fits :
    (width height max_columns max_rows : ℕ)
    → 0 < width
    → 4 < height
    → 0 < max_columns
    → 0 < max_rows
    → let (columns, rows) = video_size true (some (width, height)) max_columns max_rows in
      (0 < columns)
      × (columns ≤ width)
      × (columns ≤ max_columns)
      × (0 < rows)
      × (rows + 4 ≤ height)
      × (rows ≤ max_rows)
unfolding video_size
video_size_fits width height max_columns max_rows a b c d = ground arith
