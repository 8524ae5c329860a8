-- ===== src/Identity/Safety.antt =====
-- `SafetyCode` of internal/identity/identity.go: the code that two users compare by voice.
use go_cli_messenger.Common.{
  ℕ, ◌+◌, ◌/◌, ◌%◌, ◌≡◌, refl, ap, true, false, ltb, if◌then◌else◌, [], ◌∷◌, ◌++◌, take, Text, inl,
  inr, arith, Bool-cases,
}
use go_cli_messenger.Identity.Proof.{Crypto}
use go_cli_messenger.Identity.Trust.{text_less}

-- An upper-case hexadecimal digit.
abbrev hex_digit : ℕ → ℕ
hex_digit n = if ltb n 10 then b'0' + n else 55 + n

-- strings.ToUpper(fmt.Sprintf("%x", s))
abbrev upper_hex : Text → Text
upper_hex [] = []
upper_hex (c ∷ s) = hex_digit (c / 16) ∷ hex_digit (c % 16) ∷ upper_hex s

-- The two keys, the smaller one first.
abbrev in_order : Text → Text → Text
in_order local remote = if text_less remote local then remote ++ local else local ++ remote

unfoldable pub safety_code : Crypto → Text → Text → Text → Text
safety_code crypto local remote call_id =
    upper_hex (take 5 (crypto.sha256 (in_order local remote ++ call_id)))

text_less_asym : (s t : Text) → text_less s t ≡ true → text_less t s ≡ false
text_less_asym [] [] h = ground arith
text_less_asym [] (d ∷ t) h = refl
text_less_asym (c ∷ s) [] h = absurd (ground arith)
text_less_asym (c ∷ s) (d ∷ t) h = ground (arith, text_less_asym s t)

text_less_trichotomy : (s t : Text) → text_less s t ≡ false → text_less t s ≡ false → s ≡ t
text_less_trichotomy [] [] h k = refl
text_less_trichotomy [] (d ∷ t) h k = absurd (ground arith)
text_less_trichotomy (c ∷ s) [] h k = absurd (ground arith)
text_less_trichotomy (c ∷ s) (d ∷ t) h k = ground (arith, text_less_trichotomy s t)

in_order_comm : (s t : Text) → in_order s t ≡ in_order t s
in_order_comm s t = elim (Bool-cases (text_less t s)) [
  | inl less ↦ ground (arith, text_less_asym t s)
  | inr not_less ↦ elim (Bool-cases (text_less s t)) [
    | inl less ↦ ground arith
    | inr equal ↦ ground (arith, text_less_trichotomy s t)
  ]
]

-- The two users of a call see the same code, whichever of them computes it.
pub safety_code_comm :
    (crypto : Crypto) (local remote call_id : Text)
    → safety_code crypto local remote call_id ≡ safety_code crypto remote local call_id
unfolding safety_code
safety_code_comm crypto local remote call_id =
    ap (λ keys. upper_hex (take 5 (crypto.sha256 (keys ++ call_id)))) (in_order_comm local remote)
