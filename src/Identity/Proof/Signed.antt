-- ===== src/Identity/Proof/Signed.antt =====
-- A proof that is signed is one that is verified.
use go_cli_messenger.Common.{
  ℕ, ◌+◌, ◌≤◌, ◌≡◌, refl, sym, ap, ◌∙◌, if_intro, true, some, length, Text, arith,
}
use go_cli_messenger.Protocol.Signal.{SignalMessage}
use go_cli_messenger.Protocol.Message.{IdentityProof}
use go_cli_messenger.Identity.Proof.{
  Crypto, Identity, verified, fingerprint, address_matches_key, proof_bytes, verify, sign, unsigned,
  is_complete, proof_lifetime, one_minute,
}
use go_cli_messenger.Identity.Proof.Verified.{verify_iff}

module _ (crypto : Crypto) where
  abbrev bytes_of : Identity → SignalMessage → Text → ℕ → Text
  bytes_of i m nonce now =
      proof_bytes crypto m.type m.call_id m.from m.to (unsigned crypto i nonce now)

  abbrev proof_of : Identity → SignalMessage → Text → ℕ → IdentityProof
  proof_of i m nonce now = record (unsigned crypto i nonce now) {
    signature = crypto.encode_base64 (crypto.ed25519_sign i.private_key (bytes_of i m nonce now));
  }

  -- A message whose payload is a proof that was signed for it, from an address of the key, is verified
  -- from one minute before until two minutes after the signature, as one by the key that has signed it.
  pub verify-sign :
      (i : Identity) (m : SignalMessage) (nonce : Text) (now later : ℕ) (p : IdentityProof)
      → ((s : Text) → crypto.decode_base64 (crypto.encode_base64 s) ≡ some s)
      → ((key s : Text) → length (crypto.ed25519_sign key s) ≡ 64)
      → ((s : Text)
          → crypto.ed25519_verify i.public_key s (crypto.ed25519_sign i.private_key s) ≡ true)
      → sign crypto i m.type m.call_id m.from m.to now nonce ≡ some p
      → crypto.decode_proof m.payload ≡ some p
      → address_matches_key crypto m.from i.public_key ≡ true
      → now ≤ later + one_minute
      → later ≤ now + proof_lifetime
      → verify crypto m later ≡ verified p i.public_key (fingerprint crypto i.public_key)
  unfolding sign proof_bytes
  verify-sign i m nonce now later p reads size pair signed given own early late =
      if_intro
        (λ o.
          o ≡ some p
          → verify crypto m later ≡ verified p i.public_key (fingerprint crypto i.public_key))
        (is_complete crypto i) _ _
        (λ complete (e : some (proof_of i m nonce now) ≡ some p).
          let same : proof_of i m nonce now ≡ p = ground arith in
          (verify_iff crypto m later p i.public_key (fingerprint crypto i.public_key)).1 (
            rw (← same) (record {
              given = given ∙ sym (ap some same);
              key_given = reads i.public_key;
              key_size = ground arith;
              fingerprint_of = refl;
              not_expired = omega arith;
              not_far = omega arith;
              own_address = own;
              signature = crypto.ed25519_sign i.private_key (bytes_of i m nonce now);
              signature_given = reads (crypto.ed25519_sign i.private_key (bytes_of i m nonce now));
              signature_size = size i.private_key (bytes_of i m nonce now);
              signs = pair (bytes_of i m nonce now);
            })))
        (λ _ e. ground arith) signed
