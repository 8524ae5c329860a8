-- ===== src/Protocol/Names/Address.antt =====
-- The shape of a canonical address: a base name, a dash and twelve base32 characters.
use mathlib.Core.List.{append_assoc}
use go_cli_messenger.Common.{
  ℕ, suc, ◌-◌, ◌≤◌, ◌≡◌, refl, sym, ap, ◌↔◌, Bool, true, [], ◌∷◌, ◌++◌, length, length-append, take,
  all_of, Text, arith, subst,
}
use go_cli_messenger.Protocol.Regex.{
  Regex, one, times, seq, matches, Matches, one_byte, times_none, times_more, seq_both, matches_iff,
}
use go_cli_messenger.Protocol.Names.{
  is_base32, is_dash, base_name_pattern, address_pattern, valid_base_name, valid_address,
}

take-append : (s t : Text) → take (length s) (s ++ t) ≡ s
take-append [] t = refl
take-append (c ∷ s) t = ap (◌∷◌ c) (take-append s t)

times-all :
    {n : ℕ} {p : ℕ → Bool} {s : Text} → Matches (times n p) s → (length s ≡ n) × (all_of p s ≡ true)
times-all times_none = (refl, refl)
times-all (times_more h m) = let (l, a) = times-all m in (ap suc l, ground arith)

all-times : (p : ℕ → Bool) (s : Text) → all_of p s ≡ true → Matches (times (length s) p) s
all-times p [] h = times_none
all-times p (c ∷ s) h = times_more (ground arith) (all-times p s (ground arith))

one-inv : {p : ℕ → Bool} {s : Text} → Matches (one p) s → (c : ℕ) × (s ≡ c ∷ []) × (p c ≡ true)
one-inv (one_byte {c = c} h) = (c, refl, h)

seq-inv :
    {q r : Regex} {u : Text}
    → Matches (seq q r) u
    → (s : Text) × (t : Text) × (u ≡ s ++ t) × Matches q s × Matches r t
seq-inv (seq_both {s = s} {t = t} m m' e) = (s, t, e, m, m')

abbrev pub IsCanonical : Text → Type 0
IsCanonical address =
    (name : Text) × (suffix : Text) × (address ≡ name ++ b'-' ∷ suffix)
    × (valid_base_name name ≡ true)
    × (length suffix ≡ 12)
    × (all_of is_base32 suffix ≡ true)

join :
    (address s t u w d suffix : Text) (c : ℕ)
    → address ≡ s ++ t
    → t ≡ u ++ w
    → w ≡ d ++ suffix
    → d ≡ c ∷ []
    → is_dash c ≡ true
    → address ≡ (s ++ u) ++ b'-' ∷ suffix
join address s t u w d suffix c e₁ e₂ e₃ e₄ h =
    let dash : c ≡ b'-' = ground arith in
    rw (e₁, e₂, e₃, e₄, dash) (sym (append_assoc s u (b'-' ∷ suffix)))

abbrev Shape : Text → Type 0
Shape address =
    (name : Text) × (suffix : Text) × (address ≡ name ++ b'-' ∷ suffix)
    × (length suffix ≡ 12)
    × (all_of is_base32 suffix ≡ true)

address-Shape : (address : Text) → Matches address_pattern address → Shape address
address-Shape address m =
    let (s, t, e₁, m₁, m₂) = seq-inv m in
    let (u, w, e₂, m₃, m₄) = seq-inv m₂ in
    let (d, suffix, e₃, m₅, m₆) = seq-inv m₄ in
    let (c, e₄, h) = one-inv m₅ in
    (
      s ++ u,
      suffix,
      join address s t u w d suffix c e₁ e₂ e₃ e₄ h,
      (times-all m₆).0,
      (times-all m₆).1,
    )

name-take :
    (address name suffix : Text)
    → address ≡ name ++ b'-' ∷ suffix
    → length suffix ≡ 12
    → take (length address - 1 - 12) address ≡ name
name-take address name suffix e l =
    let n : length address - 1 - 12 ≡ length name =
      omega (arith, ap length e, length-append name (b'-' ∷ suffix)) in
    rw n (rw e (take-append name (b'-' ∷ suffix)))

valid-parts :
    (address : Text)
    → valid_address address ≡ true
    → (matches address_pattern address ≡ true)
      × (valid_base_name (take (length address - 1 - 12) address) ≡ true)
unfolding valid_address
valid-parts address h = (ground arith, ground arith)

canonical :
    (address : Text)
    → valid_base_name (take (length address - 1 - 12) address) ≡ true
    → Shape address
    → IsCanonical address
canonical address h (name, suffix, e, l, a) =
    (name, suffix, e, rw (name-take address name suffix e l) at h, l, a)

IsCanonical-of_valid : (address : Text) → valid_address address ≡ true → IsCanonical address
IsCanonical-of_valid address h =
    let (m, v) = valid-parts address h in
    canonical address v (address-Shape address ((matches_iff address_pattern address).0 m))

base-parts :
    (name : Text)
    → valid_base_name name ≡ true
    → (3 ≤ length name) × (length name ≤ 19) × (matches base_name_pattern name ≡ true)
unfolding valid_base_name
base-parts name h = (ground arith, ground arith, ground arith)

address-Matches :
    (name suffix : Text)
    → Matches base_name_pattern name
    → length suffix ≡ 12
    → all_of is_base32 suffix ≡ true
    → Matches address_pattern (name ++ b'-' ∷ suffix)
address-Matches name suffix m l a =
    let (s, u, e, m₁, m₂) = seq-inv m in
    seq_both m₁
      (seq_both m₂
        (seq_both (one_byte {c = b'-'} refl)
          (subst (λ n. Matches (times n is_base32) suffix) l (all-times is_base32 suffix a)) refl)
        refl)
      (rw e (append_assoc s u (b'-' ∷ suffix)))

valid_of_parts :
    (address : Text)
    → 16 ≤ length address
    → length address ≤ 32
    → matches address_pattern address ≡ true
    → valid_base_name (take (length address - 1 - 12) address) ≡ true
    → valid_address address ≡ true
unfolding valid_address
valid_of_parts address lo hi m v = ground arith

valid_of_canonical : (address : Text) → IsCanonical address → valid_address address ≡ true
valid_of_canonical address (name, suffix, e, v, l, a) =
    let (lo, hi, m) = base-parts name v in
    valid_of_parts address (omega (arith, ap length e, length-append name (b'-' ∷ suffix)))
      (omega (arith, ap length e, length-append name (b'-' ∷ suffix)))
      ((matches_iff address_pattern address).1
        (rw e (address-Matches name suffix ((matches_iff base_name_pattern name).0 m) l a)))
      (rw (name-take address name suffix e l) v)

-- An address is accepted exactly when it is a valid base name, a dash and twelve characters of the
-- base32 alphabet.
pub valid_address_iff : (address : Text) → (valid_address address ≡ true) ↔ IsCanonical address
valid_address_iff address = (IsCanonical-of_valid address, valid_of_canonical address)
