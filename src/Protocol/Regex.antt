-- ===== src/Protocol/Regex.antt =====
-- The regular expressions that the protocol uses of Go's regexp, with their language and a matcher
-- by continuations, which runs.
use mathlib.Core.List.{append_assoc, append-nil}
use mathlib.Core.Path.{subst}
use go_cli_messenger.Common.{
  ℕ, zero, suc, ◌≡◌, refl, sym, ap, ◌∙◌, inl, inr, ◌↔◌, Bool, true, false, ◌&&◌, ◌||◌, [], ◌∷◌,
  ◌++◌, Text, arith, Bool-cases, is_empty,
}

pub data Regex : Type 0 where
  one : (ℕ → Bool) → Regex
  many : (ℕ → Bool) → Regex
  times : ℕ → (ℕ → Bool) → Regex
  opt : Regex → Regex
  seq : Regex → Regex → Regex

-- The language of an expression.
pub data Matches : Regex → Text → Type 0 where
  one_byte : {p : ℕ → Bool} {c : ℕ} → p c ≡ true → Matches (one p) (c ∷ [])
  many_none : {p : ℕ → Bool} → Matches (many p) []
  many_more :
      {p : ℕ → Bool} {c : ℕ} {s : Text} → p c ≡ true → Matches (many p) s → Matches (many p) (c ∷ s)
  times_none : {p : ℕ → Bool} → Matches (times zero p) []
  times_more :
      {p : ℕ → Bool} {n c : ℕ} {s : Text}
      → p c ≡ true
      → Matches (times n p) s
      → Matches (times (suc n) p) (c ∷ s)
  opt_none : {r : Regex} → Matches (opt r) []
  opt_some : {r : Regex} {s : Text} → Matches r s → Matches (opt r) s
  seq_both :
      {q r : Regex} {s t u : Text} → Matches q s → Matches r t → u ≡ s ++ t → Matches (seq q r) u

star : (ℕ → Bool) → (Text → Bool) → Text → Bool
star p k [] = k []
star p k (c ∷ s) = k (c ∷ s) || (p c && star p k s)

repeat : ℕ → (ℕ → Bool) → (Text → Bool) → Text → Bool
repeat zero p k s = k s
repeat (suc n) p k [] = false
repeat (suc n) p k (c ∷ s) = p c && repeat n p k s

head_in : (ℕ → Bool) → (Text → Bool) → Text → Bool
head_in p k [] = false
head_in p k (c ∷ s) = p c && k s

-- Some prefix of the text is in the language, and the rest passes `k`.
prefix : Regex → (Text → Bool) → Text → Bool
unfolding star repeat head_in
prefix (one p) k s = head_in p k s
prefix (many p) k s = star p k s
prefix (times n p) k s = repeat n p k s
prefix (opt r) k s = k s || prefix r k s
prefix (seq q r) k s = prefix q (prefix r k) s

-- `^r$`
unfoldable pub matches : Regex → Text → Bool
unfolding prefix
matches r = prefix r is_empty

abbrev Split : Regex → (Text → Bool) → Text → Type 0
Split r k s = (a : Text) × (b : Text) × (s ≡ a ++ b) × Matches r a × (k b ≡ true)

star_sound : (p : ℕ → Bool) (k : Text → Bool) (s : Text) → star p k s ≡ true → Split (many p) k s
unfolding star
star_sound p k [] h = ([], [], refl, many_none, h)
star_sound p k (c ∷ s) h = elim (Bool-cases (k (c ∷ s))) [
  | inl t ↦ ([], c ∷ s, refl, many_none, t)
  | inr f ↦
      let (a, b, e, m, t) = star_sound p k s (ground arith) in
      (c ∷ a, b, ap (◌∷◌ c) e, many_more (ground arith) m, t)
]

repeat_sound :
    (n : ℕ) (p : ℕ → Bool) (k : Text → Bool) (s : Text)
    → repeat n p k s ≡ true
    → Split (times n p) k s
unfolding repeat
repeat_sound zero p k s h = ([], s, refl, times_none, h)
repeat_sound (suc n) p k [] h = cc
repeat_sound (suc n) p k (c ∷ s) h =
    let (a, b, e, m, t) = repeat_sound n p k s (ground arith) in
    (c ∷ a, b, ap (◌∷◌ c) e, times_more (ground arith) m, t)

head_in_sound :
    (p : ℕ → Bool) (k : Text → Bool) (s : Text) → head_in p k s ≡ true → Split (one p) k s
unfolding head_in
head_in_sound p k [] h = cc
head_in_sound p k (c ∷ s) h = (c ∷ [], s, refl, one_byte (ground arith), ground arith)

prefix_sound : (r : Regex) (k : Text → Bool) (s : Text) → prefix r k s ≡ true → Split r k s
unfolding prefix
prefix_sound (one p) k s h = head_in_sound p k s h
prefix_sound (many p) k s h = star_sound p k s h
prefix_sound (times n p) k s h = repeat_sound n p k s h
prefix_sound (opt r) k s h = elim (Bool-cases (k s)) [
  | inl t ↦ ([], s, refl, opt_none, t)
  | inr f ↦ let (a, b, e, m, t) = prefix_sound r k s (ground arith) in (a, b, e, opt_some m, t)
]
prefix_sound (seq q r) k s h =
    let (a, b, e, m, t) = prefix_sound q (prefix r k) s h in
    let (a', b', e', m', t') = prefix_sound r k b t in
    (a ++ a', b', e ∙ ap (◌++◌ a) e' ∙ sym (append_assoc a a' b'), seq_both m m' refl, t')

prefix_complete :
    {r : Regex} {a : Text} (k : Text → Bool) (b : Text)
    → Matches r a
    → k b ≡ true
    → prefix r k (a ++ b) ≡ true
unfolding prefix
prefix_complete k b (one_byte h) t = ground arith
prefix_complete k b (many_none {p = p}) t = star_here p k b t
  where
    star_here : (p : ℕ → Bool) (k : Text → Bool) (b : Text) → k b ≡ true → star p k b ≡ true
    star_here p k [] t = t
    star_here p k (c ∷ b) t = ground arith
prefix_complete k b (many_more h m) t = ground (arith, prefix_complete k b m t)
prefix_complete k b times_none t = t
prefix_complete k b (times_more h m) t = ground (arith, prefix_complete k b m t)
prefix_complete k b opt_none t = ground arith
prefix_complete k b (opt_some m) t = ground (arith, prefix_complete k b m t)
prefix_complete k b (seq_both {q = q} {r = r} {s = s} {t = u} m m' e) h = rw e (
    rw (append_assoc s u b)
      (prefix_complete {r = q} (prefix r k) (u ++ b) m (prefix_complete k b m' h)))

-- The matcher accepts exactly the language of the expression.
pub matches_iff : (r : Regex) (s : Text) → (matches r s ≡ true) ↔ Matches r s
unfolding matches
matches_iff r s = (
  λ h. let (a, b, e, m, t) = prefix_sound r is_empty s h in whole a b e m t,
  λ m. subst (λ u. prefix r is_empty u ≡ true) (append-nil s) (prefix_complete is_empty [] m refl),
)
  where
    whole : (a b : Text) → s ≡ a ++ b → Matches r a → is_empty b ≡ true → Matches r s
    whole a [] e m t = rw (e ∙ append-nil a) m
    whole a (c ∷ b) e m t = cc
