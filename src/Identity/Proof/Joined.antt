-- ===== src/Identity/Proof/Joined.antt =====
-- What the signed bytes say: the NUL bytes between the parts keep them apart.
use go_cli_messenger.Common.{
  ℕ, ◌≡◌, refl, ap, true, not, ◌==◌, List, [], ◌∷◌, ◌++◌, length, all_of, Text, arith, All,
}
use go_cli_messenger.Protocol.Signal.{SignalType, unknown, is_known}
use go_cli_messenger.Protocol.Message.{IdentityProof}
use go_cli_messenger.Identity.Proof.{Crypto, join_nul, type_text, signed_parts, proof_bytes}

abbrev pub NoNul : Text → Type 0
NoNul s = all_of (λ c. not (c == 0)) s ≡ true

-- A text without a NUL ends where the first NUL stands.
split_at_nul :
    (s t x y : Text) → NoNul s → NoNul t → (s ++ 0 ∷ x) ≡ (t ++ 0 ∷ y) → (s ≡ t) × (x ≡ y)
split_at_nul [] [] x y hs ht e = (refl, ground arith)
split_at_nul [] (d ∷ t) x y hs ht e = absurd (ground arith)
split_at_nul (c ∷ s) [] x y hs ht e = absurd (ground arith)
split_at_nul (c ∷ s) (d ∷ t) x y hs ht e =
    let (p, q) = split_at_nul s t x y (ground arith) (ground arith) (ground arith) in
    (ground arith, q)

pub join_nul_injective :
    (ps qs : List Text)
    → All NoNul ps
    → All NoNul qs
    → length ps ≡ length qs
    → join_nul ps ≡ join_nul qs
    → ps ≡ qs
unfolding join_nul
join_nul_injective [] [] hp hq l e = refl
join_nul_injective [] (q ∷ qs) hp hq l e = absurd (omega arith)
join_nul_injective (p ∷ ps) [] hp hq l e = absurd (omega arith)
join_nul_injective (p ∷ []) (q ∷ []) hp hq l e = ap (λ x. x ∷ []) e
join_nul_injective (p ∷ []) (q ∷ q' ∷ qs) hp hq l e = absurd (omega arith)
join_nul_injective (p ∷ p' ∷ ps) (q ∷ []) hp hq l e = absurd (omega arith)
join_nul_injective (p ∷ p' ∷ ps) (q ∷ q' ∷ qs) hp hq l e =
    let (head, tail) = split_at_nul p q _ _ hp.0 hq.0 e in
    cc (head, join_nul_injective (p' ∷ ps) (q' ∷ qs) hp.1 hq.1 (omega arith) tail)

type_text-NoNul : (type : SignalType) → is_known type ≡ true → NoNul (type_text type)
unfolding type_text is_known
type_text-NoNul (unknown s) h = cc
type_text-NoNul type h = refl

-- No field of the signed call has a NUL in it.
pub record Clean (call_id from to : Text) (p : IdentityProof) : Type 0 where
  pub clean_call : NoNul call_id
  pub clean_from : NoNul from
  pub clean_to : NoNul to
  pub clean_key : NoNul p.public_key
  pub clean_nonce : NoNul p.nonce

-- What a signature is about.
pub record SameCall (crypto : Crypto) (type type' : SignalType)
    (call_id call_id' from from' to to' : Text) (p q : IdentityProof) : Type 0 where
  pub same_type : type_text type ≡ type_text type'
  pub same_call : call_id ≡ call_id'
  pub same_from : from ≡ from'
  pub same_to : to ≡ to'
  pub same_key : p.public_key ≡ q.public_key
  pub same_expiry : crypto.format_time p.expires_at ≡ crypto.format_time q.expires_at
  pub same_nonce : p.nonce ≡ q.nonce

module _ (crypto : Crypto) (dates : (t : ℕ) → NoNul (crypto.format_time t)) where
  parts-NoNul :
      (type : SignalType) (call_id from to : Text) (p : IdentityProof)
      → is_known type ≡ true
      → Clean call_id from to p
      → All NoNul (signed_parts crypto type call_id from to p)
  parts-NoNul type call_id from to p k c = (
    refl,
    (
      type_text-NoNul type k,
      (
        c.clean_call,
        (c.clean_from, (c.clean_to, (c.clean_key, (dates p.expires_at, (c.clean_nonce, tt))))),
      ),
    ),
  )

  -- Two known message types, and fields without a NUL byte (which printed times have none of): if
  -- the bytes to sign are the same, so are the type, the call, the sender, the addressee, the key,
  -- the printed expiry and the nonce.
  pub proof_bytes_injective :
      (type type' : SignalType) (call_id call_id' from from' to to' : Text) (p q : IdentityProof)
      → is_known type ≡ true
      → is_known type' ≡ true
      → Clean call_id from to p
      → Clean call_id' from' to' q
      → proof_bytes crypto type call_id from to p ≡ proof_bytes crypto type' call_id' from' to' q
      → SameCall crypto type type' call_id call_id' from from' to to' p q
  unfolding proof_bytes
  proof_bytes_injective type type' call_id call_id' from from' to to' p q k k' c c' e =
      let same =
        join_nul_injective (signed_parts crypto type call_id from to p)
          (signed_parts crypto type' call_id' from' to' q) (parts-NoNul type call_id from to p k c)
          (parts-NoNul type' call_id' from' to' q k' c') refl e in
      record {
        same_type = cc;
        same_call = cc;
        same_from = cc;
        same_to = cc;
        same_key = cc;
        same_expiry = cc;
        same_nonce = cc;
      }
