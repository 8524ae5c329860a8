-- ===== src/Terminal/Sanitize/Clean.antt =====
-- What `Sanitize` lets through, and what it leaves alone.
use mathlib.Core.List.{append_assoc}
use go_cli_messenger.Common.{
  ℕ, zero, suc, ◌+◌, ◌-◌, ◌/◌, ◌%◌, ◌≤◌, ◌≡◌, refl, ap, ◌∙◌, inl, inr, Bool, true, false, ◌&&◌,
  ◌||◌, ◌==◌, leb, if◌then◌else◌, some, [], ◌∷◌, ◌++◌, all_of, length, length-append, Text, arith,
  Option-cases,
}
use go_cli_messenger.Terminal.Runes.{decode_rune, encode_rune, is_control, is_format, is_harmless}
use go_cli_messenger.Terminal.Runes.Roundtrip.{Read-decode_rune}
use go_cli_messenger.Terminal.Sanitize.{
  hex_digit, hex_from, padded_hex, sanitized_rune, sanitize_from, sanitize,
}

-- A text of runes that do nothing to a terminal: no byte of it is invalid, no rune a control or
-- format character but the tab.
pub data Clean : Text → Type 0 where
  end : Clean []
  next :
      (a : ℕ) (s rest : Text) (r : ℕ)
      → decode_rune a s ≡ some (r, rest)
      → is_harmless r ≡ true
      → Clean rest
      → Clean (a ∷ s)

abbrev is_plain : ℕ → Bool
is_plain c = leb 0x20 c && leb c 0x7E

Clean-plain : (p t : Text) → all_of is_plain p ≡ true → Clean t → Clean (p ++ t)
unfolding decode_rune is_format
Clean-plain [] t h v = v
Clean-plain (c ∷ p) t h v =
    next c (p ++ t) (p ++ t) c (ground arith) (ground arith) (Clean-plain p t (ground arith) v)

hex_from-plain :
    (f w n : ℕ) (s : Text) → all_of is_plain s ≡ true → all_of is_plain (hex_from f w n s) ≡ true
unfolding hex_from
hex_from-plain zero w n s h = h
hex_from-plain (suc f) w n s h =
    ground (arith, hex_from-plain f (w - 1) (n / 16) (hex_digit (n % 16) ∷ s) (ground arith))

Clean-escaped :
    (p : Text) (w n : ℕ) (q t : Text)
    → all_of is_plain p ≡ true
    → all_of is_plain q ≡ true
    → Clean t
    → Clean (p ++ (padded_hex w n ++ (q ++ t)))
unfolding padded_hex
Clean-escaped p w n q t hp hq v = Clean-plain p _ hp (
    Clean-plain (hex_from (w + n) w n []) _ (hex_from-plain (w + n) w n [] refl)
      (Clean-plain q t hq v))

Clean-encode_rune :
    (a : ℕ) (s : Text) (r : ℕ) (rest t : Text)
    → decode_rune a s ≡ some (r, rest)
    → is_harmless r ≡ true
    → Clean t
    → Clean (encode_rune r ++ t)
Clean-encode_rune a s r rest t e h v =
    let (p, bytes, _, again) = Read-decode_rune a s r rest e in
    rw bytes (next a (p ++ t) t r (again t) h v)

Clean-sanitized_rune :
    (a : ℕ) (s : Text) (r : ℕ) (rest t : Text)
    → decode_rune a s ≡ some (r, rest)
    → Clean t
    → Clean (sanitized_rune r ++ t)
unfolding sanitized_rune decode_rune is_format
Clean-sanitized_rune a s r rest t e v =
    if-Clean (r == 9) _ _ (λ h. next 9 t t 9 refl refl v)
      λ n.
        if-Clean (r == 10) _ _ (λ h. Clean-plain (b'\\' ∷ b'n' ∷ []) t refl v)
          λ m.
            if-Clean (r == 13) _ _ (λ h. Clean-plain (b'\\' ∷ b'r' ∷ []) t refl v)
              λ l.
                if-Clean (is_control r || is_format r) _ _
                  (λ h.
                    rw (append_assoc (padded_hex 4 r))
                      (Clean-escaped (b'\\' ∷ b'u' ∷ b'{' ∷ []) 4 r (b'}' ∷ []) t refl refl v))
                  (λ k. Clean-encode_rune a s r rest t e (ground arith) v)
  where
    if-Clean :
        (b : Bool) (x y : Text)
        → (b ≡ true → Clean (x ++ t))
        → (b ≡ false → Clean (y ++ t))
        → Clean ((if b then x else y) ++ t)
    if-Clean true x y f g = f refl
    if-Clean false x y f g = g refl

Clean-sanitize_from : (f : ℕ) (s : Text) → Clean (sanitize_from f s)
unfolding sanitize_from
Clean-sanitize_from zero s = end
Clean-sanitize_from (suc f) [] = end
Clean-sanitize_from (suc f) (a ∷ s) = elim (Option-cases (decode_rune a s)) [
  | inl e ↦
      rw (e, sanitize_from)
        (Clean-escaped (b'\\' ∷ b'x' ∷ []) 2 a [] (sanitize_from f s) refl refl
          (Clean-sanitize_from f s))
  | inr ((r, rest), e) ↦
      rw (e, sanitize_from)
        (Clean-sanitized_rune a s r rest (sanitize_from f rest) e (Clean-sanitize_from f rest))
]

harmless_rune : (r : ℕ) → is_harmless r ≡ true → sanitized_rune r ≡ encode_rune r
unfolding sanitized_rune encode_rune
harmless_rune r h = ground arith

sanitize_from-Clean : {s : Text} (f : ℕ) → Clean s → length s ≤ f → sanitize_from f s ≡ s
unfolding sanitize_from
sanitize_from-Clean zero end l = refl
sanitize_from-Clean (suc f) end l = refl
sanitize_from-Clean zero (next a s rest r e h v) l = absurd (omega arith)
sanitize_from-Clean (suc f) (next a s rest r e h v) l =
    let (p, bytes, split, again) = Read-decode_rune a s r rest e in
    rw (e, sanitize_from)
      (ap (◌++◌ (sanitized_rune r))
          (sanitize_from-Clean f v (omega (arith, ap length split, length-append p rest)))
        ∙ rw (harmless_rune r h, bytes, split) refl)

-- Whatever a peer sends, the sanitised text has no control, format or invalid byte sequence but the
-- tab; and a text that has none is left as it is.
pub sanitize-Clean : (s : Text) → Clean (sanitize s) × (Clean s → sanitize s ≡ s)
unfolding sanitize
sanitize-Clean s =
    (Clean-sanitize_from (length s) s, λ v. sanitize_from-Clean (length s) v (omega arith))
