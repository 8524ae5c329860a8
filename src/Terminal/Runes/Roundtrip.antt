-- ===== src/Terminal/Runes/Roundtrip.antt =====
-- A decoded rune is encoded as the bytes that it was read from, and is read from them again whatever
-- follows.
use go_cli_messenger.Common.{
  ℕ, ◌+◌, ◌*◌, ◌%◌, ◌≤◌, ◌<◌, ◌≡◌, refl, Bool, true, false, ◌==◌, ltb, if◌then◌else◌, Option, none,
  some, List, [], ◌∷◌, ◌++◌, arith, Text,
}
use go_cli_messenger.Protocol.Control.{lead, tail_range}
use go_cli_messenger.Terminal.Runes.{rune_tail, lead_bits, decode_tail, decode_rune, encode_rune}

-- What the table of the first bytes says, by the length of the sequence.
data Lead (a : ℕ) : Option (List (ℕ × ℕ)) → Type 0 where
  one : a < 0x80 → Lead a (some [])
  two : 0xC2 ≤ a → a < 0xE0 → Lead a (some (tail_range ∷ []))
  three :
      (lo hi : ℕ)
      → 0xE0 ≤ a
      → a < 0xF0
      → (a ≡ 0xE0 → 0xA0 ≤ lo)
      → 0x80 ≤ lo
      → hi ≤ 0xBF
      → (a ≡ 0xED → hi ≤ 0x9F)
      → Lead a (some ((lo, hi) ∷ tail_range ∷ []))
  four :
      (lo hi : ℕ)
      → 0xF0 ≤ a
      → a ≤ 0xF4
      → (a ≡ 0xF0 → 0x90 ≤ lo)
      → 0x80 ≤ lo
      → hi ≤ 0xBF
      → (a ≡ 0xF4 → hi ≤ 0x8F)
      → Lead a (some ((lo, hi) ∷ tail_range ∷ tail_range ∷ []))
  bad : Lead a none

if-Lead :
    {a : ℕ} {x y : Option (List (ℕ × ℕ))} (b : Bool)
    → (b ≡ true → Lead a x)
    → (b ≡ false → Lead a y)
    → Lead a (if b then x else y)
if-Lead true v w = v refl
if-Lead false v w = w refl

-- A byte by its class; the tests of the table in their order.
lead_lem : (a : ℕ) → Lead a (lead a)
unfolding lead
lead_lem a =
    if-Lead (ltb a 0x80) (λ p. one (ground arith))
      λ p.
        if-Lead (ltb a 0xC2) (λ q. bad)
          λ q.
            if-Lead (ltb a 0xE0) (λ r. two (ground arith) (ground arith))
              λ r.
                if-Lead (a == 0xE0)
                  (λ e.
                    three 0xA0 0xBF (ground arith) (ground arith) (λ _. omega arith) (omega arith)
                      (omega arith) (λ x. ground arith))
                  λ e.
                    if-Lead (a == 0xED)
                      (λ f.
                        three 0x80 0x9F (ground arith) (ground arith) (λ x. ground arith)
                          (omega arith) (omega arith) (λ _. omega arith))
                      λ f.
                        if-Lead (ltb a 0xF0)
                          (λ g.
                            three 0x80 0xBF (ground arith) (ground arith) (λ x. ground arith)
                              (omega arith) (omega arith) (λ x. ground arith))
                          λ g.
                            if-Lead (a == 0xF0)
                              (λ k.
                                four 0x90 0xBF (ground arith) (ground arith) (λ _. omega arith)
                                  (omega arith) (omega arith) (λ x. ground arith))
                              λ k.
                                if-Lead (ltb a 0xF4)
                                  (λ l.
                                    four 0x80 0xBF (ground arith) (ground arith) (λ x. ground arith)
                                      (omega arith) (omega arith) (λ x. ground arith))
                                  λ l.
                                    if-Lead (a == 0xF4)
                                      (λ m.
                                        four 0x80 0x8F (ground arith) (ground arith)
                                          (λ x. ground arith) (omega arith) (omega arith)
                                          (λ _. omega arith))
                                      (λ m. bad)

abbrev pub Read : ℕ → Text → ℕ → Text → Type 0
Read a s r rest =
    (p : Text) × (encode_rune r ≡ a ∷ p)
    × (s ≡ p ++ rest)
    × ((t : Text) → decode_rune a (p ++ t) ≡ some (r, t))

four_bytes :
    (a b c d r : ℕ)
    → (0xF0 ≤ a) × (a ≤ 0xF4) × (a ≡ 0xF0 → 0x90 ≤ b) × (a ≡ 0xF4 → b ≤ 0x8F)
    → (0x80 ≤ b) × (b ≤ 0xBF)
    → (0x80 ≤ c) × (c ≤ 0xBF) × (0x80 ≤ d) × (d ≤ 0xBF)
    → r ≡ ((a % 8 * 64 + b % 64) * 64 + c % 64) * 64 + d % 64
    → encode_rune r ≡ a ∷ b ∷ c ∷ d ∷ []
unfolding encode_rune
four_bytes a b c d r ha hb hc e = ground arith

Read-decode_tail :
    (a : ℕ) {needs : Option (List (ℕ × ℕ))} (s : Text) (r : ℕ) (rest : Text)
    → Lead a needs
    → lead a ≡ needs
    → decode_tail needs (lead_bits a) s ≡ some (r, rest)
    → Read a s r rest
unfolding rune_tail encode_rune decode_rune
Read-decode_tail a s r rest bad e h = cc
Read-decode_tail a s r rest (one p) e h = ([], ground arith, ground arith, λ t. rw e (ground arith))
Read-decode_tail a [] r rest (two p q) e h = absurd (ground arith)
Read-decode_tail a (b ∷ s) r rest (two p q) e h =
    (b ∷ [], ground arith, ground arith, λ t. rw e (ground arith))
Read-decode_tail a [] r rest (three lo hi p q l m n o) e h = absurd (ground arith)
Read-decode_tail a (b ∷ []) r rest (three lo hi p q l m n o) e h = absurd (ground arith)
Read-decode_tail a (b ∷ c ∷ s) r rest (three lo hi p q l m n o) e h =
    (b ∷ c ∷ [], ground arith, ground arith, λ t. rw e (ground arith))
Read-decode_tail a [] r rest (four lo hi p q l m n o) e h = absurd (ground arith)
Read-decode_tail a (b ∷ []) r rest (four lo hi p q l m n o) e h = absurd (ground arith)
Read-decode_tail a (b ∷ c ∷ []) r rest (four lo hi p q l m n o) e h = absurd (ground arith)
Read-decode_tail a (b ∷ c ∷ d ∷ s) r rest (four lo hi p q l m n o) e h =
    let (range, value) = read in
    (
      b ∷ c ∷ d ∷ [],
      four_bytes a b c d r (omega arith) (omega arith) (omega arith) value,
      ground arith,
      λ t. rw e (ground arith),
    )
  where
    read :
        ((lo ≤ b) × (b ≤ hi) × (0x80 ≤ c) × (c ≤ 0xBF) × (0x80 ≤ d) × (d ≤ 0xBF))
        × (r ≡ ((a % 8 * 64 + b % 64) * 64 + c % 64) * 64 + d % 64)
    read = ground arith

-- What `DecodeRune` reads, `AppendRune` writes.
pub Read-decode_rune :
    (a : ℕ) (s : Text) (r : ℕ) (rest : Text) → decode_rune a s ≡ some (r, rest) → Read a s r rest
Read-decode_rune a s r rest h =
    Read-decode_tail a s r rest (lead_lem a) refl (unfold decode_rune in h)
