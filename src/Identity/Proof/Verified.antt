-- ===== src/Identity/Proof/Verified.antt =====
-- What a verified message is, said without the order of the checks.
use go_cli_messenger.Common.{
  ℕ, ◌+◌, ◌≤◌, ◌≡◌, refl, ◌↔◌, true, Option, none, some, length, Text, arith,
}
use go_cli_messenger.Protocol.Signal.{SignalMessage}
use go_cli_messenger.Protocol.Message.{IdentityProof}
use go_cli_messenger.Identity.Proof.{
  Crypto, verified, fingerprint, address_matches_key, proof_bytes, verify, decode_public_key,
  check_signature, check_key, check_proof,
}

module _ (crypto : Crypto) where
  -- The key belongs to the sender's address, the proof is in its time, and the key signs the call.
  pub record Verified (m : SignalMessage) (now : ℕ) (p : IdentityProof) (key fp : Text)
      : Type 0 where
    pub given : crypto.decode_proof m.payload ≡ some p
    pub key_given : crypto.decode_base64 p.public_key ≡ some key
    pub key_size : length key ≡ 32
    pub fingerprint_of : fp ≡ fingerprint crypto key
    pub not_expired : now ≤ p.expires_at
    pub not_far : p.expires_at ≤ now + 180000000000
    pub own_address : address_matches_key crypto m.from key ≡ true
    pub signature : Text
    pub signature_given : crypto.decode_base64 p.signature ≡ some signature
    pub signature_size : length signature ≡ 64
    pub signs :
        crypto.ed25519_verify key (proof_bytes crypto m.type m.call_id m.from m.to p) signature
        ≡ true

  key_of :
      (value key : Text) (o : Option Text)
      → crypto.decode_base64 value ≡ o
      → decode_public_key crypto value ≡ some key
      → (o ≡ some key) × (length key ≡ 32)
  unfolding decode_public_key
  key_of value key none e h = absurd (ground arith)
  key_of value key (some k) e h = (ground arith, ground arith)

  Verified-of_verify :
      (m : SignalMessage) (now : ℕ) (p : IdentityProof) (key fp : Text)
      → verify crypto m now ≡ verified p key fp
      → Verified m now p key fp
  unfolding verify
  Verified-of_verify m now p key fp h = at_proof (crypto.decode_proof m.payload) refl h
    where
      at_signature :
          (q : IdentityProof) (k : Text) (o : Option Text)
          → crypto.decode_base64 q.signature ≡ o
          → crypto.decode_proof m.payload ≡ some q
          → decode_public_key crypto q.public_key ≡ some k
          → now ≤ q.expires_at
          → q.expires_at ≤ now + 180000000000
          → address_matches_key crypto m.from k ≡ true
          → check_signature crypto m q k o ≡ verified p key fp
          → Verified m now p key fp
      at_signature q k none s d e lo hi a h = absurd (ground arith)
      at_signature q k (some sig) s d e lo hi a h =
          let same_proof : q ≡ p = ground arith in
          let same_key : k ≡ key = ground arith in
          record {
            given = cc;
            key_given = ground (arith, (key_of q.public_key k _ refl e).0);
            key_size = ground (arith, (key_of q.public_key k _ refl e).1);
            fingerprint_of = ground arith;
            not_expired = ground arith;
            not_far = ground arith;
            own_address = ground arith;
            signature = sig;
            signature_given = cc;
            signature_size = ground arith;
            signs = ground arith;
          }

      at_key :
          (q : IdentityProof) (o : Option Text)
          → decode_public_key crypto q.public_key ≡ o
          → crypto.decode_proof m.payload ≡ some q
          → check_key crypto m now q o ≡ verified p key fp
          → Verified m now p key fp
      at_key q none e d h = absurd (ground arith)
      at_key q (some k) e d h =
          at_signature q k (crypto.decode_base64 q.signature) refl d e (ground arith) (ground arith)
            (ground arith) (ground arith)

      at_proof :
          (o : Option IdentityProof)
          → crypto.decode_proof m.payload ≡ o
          → check_proof crypto m now o ≡ verified p key fp
          → Verified m now p key fp
      at_proof none d h = absurd (ground arith)
      at_proof (some q) d h = at_key q (decode_public_key crypto q.public_key) refl d h

  verify-of_Verified :
      (m : SignalMessage) (now : ℕ) (p : IdentityProof) (key fp : Text)
      → Verified m now p key fp
      → verify crypto m now ≡ verified p key fp
  unfolding verify decode_public_key
  verify-of_Verified m now p key fp v = ground (
    arith, v.given, v.key_given, v.key_size, v.fingerprint_of, v.not_expired, v.not_far,
    v.own_address, v.signature_given, v.signature_size, v.signs,
  )

  -- A message is verified, with a proof, a key and a fingerprint, exactly when its payload is that
  -- proof, the proof names that key, of 32 bytes, the fingerprint is the key's, the proof has not
  -- expired and expires in three minutes at most, the sender's address ends in the key's suffix, and
  -- the proof's signature, of 64 bytes, is the key's on the bytes of this call.
  pub verify_iff :
      (m : SignalMessage) (now : ℕ) (p : IdentityProof) (key fp : Text)
      → (verify crypto m now ≡ verified p key fp) ↔ Verified m now p key fp
  verify_iff m now p key fp = (Verified-of_verify m now p key fp, verify-of_Verified m now p key fp)
