-- ===== src/Identity/Proof.antt =====
-- internal/identity/identity.go: fingerprints, addresses and the proofs that a user signs. The
-- encodings and the cryptography of Go's standard library are a parameter.
pub mod Verified
pub mod Signed
pub mod Joined
use go_cli_messenger.Common.{
  ℕ, ◌+◌, ◌-◌, Bool, true, false, ◌&&◌, ◌||◌, not, ◌==◌, leb, ltb, if◌then◌else◌, Option, none,
  some, List, [], ◌∷◌, ◌++◌, map, length, take, drop, Text, codes, text_eq,
}
use go_cli_messenger.Protocol.Signal.{
  SignalType, SignalMessage, session_hello, session_ready, session_ping, session_pong,
  session_error, presence_query, presence_result, call_invite, call_ringing, call_accept,
  call_decline, call_cancel, call_busy, call_timeout, call_end, webrtc_offer, webrtc_answer,
  webrtc_ice, webrtc_ice_complete, unknown, address_suffix_length,
}
use go_cli_messenger.Protocol.Names.{valid_base_name, valid_address}
use go_cli_messenger.Protocol.Message.{IdentityProof}

-- `decode_proof` is `decoder.Decode` with `DisallowUnknownFields`, which reads the first value;
-- `encode_base32` has no padding; `format_time` is RFC 3339 with nanoseconds, in UTC.
pub record Crypto : Type 0 where
  pub decode_proof : Text → Option IdentityProof
  pub encode_base64 : Text → Text
  pub decode_base64 : Text → Option Text
  pub encode_base32 : Text → Text
  pub sha256 : Text → Text
  pub ed25519_sign : Text → Text → Text
  pub ed25519_verify : Text → Text → Text → Bool
  pub format_time : ℕ → Text

pub record Identity : Type 0 where
  pub public_key : Text
  pub private_key : Text

pub data ProofError : Type 0 where
  no_proof bad_key out_of_window wrong_suffix signature_encoding bad_signature : ProofError

-- `string(messageType)`
unfoldable pub type_text : SignalType → Text
type_text session_hello = codes "session.hello"
type_text session_ready = codes "session.ready"
type_text session_ping = codes "session.ping"
type_text session_pong = codes "session.pong"
type_text session_error = codes "session.error"
type_text presence_query = codes "presence.query"
type_text presence_result = codes "presence.result"
type_text call_invite = codes "call.invite"
type_text call_ringing = codes "call.ringing"
type_text call_accept = codes "call.accept"
type_text call_decline = codes "call.decline"
type_text call_cancel = codes "call.cancel"
type_text call_busy = codes "call.busy"
type_text call_timeout = codes "call.timeout"
type_text call_end = codes "call.end"
type_text webrtc_offer = codes "webrtc.offer"
type_text webrtc_answer = codes "webrtc.answer"
type_text webrtc_ice = codes "webrtc.ice"
type_text webrtc_ice_complete = codes "webrtc.ice_complete"
type_text (unknown s) = s

-- strings.Join(parts, "\x00")
unfoldable pub join_nul : List Text → Text
join_nul [] = []
join_nul (part ∷ []) = part
join_nul (part ∷ next ∷ parts) = part ++ 0 ∷ join_nul (next ∷ parts)

-- strings.ToLower on ASCII
abbrev pub to_lower : Text → Text
to_lower s = map (λ c. if leb b'A' c && leb c b'Z' then c + 32 else c) s

-- strings.HasSuffix(s, tail), the tail first.
abbrev pub has_suffix : Text → Text → Bool
has_suffix tail s = leb (length tail) (length s) && text_eq (drop (length s - length tail) s) tail

-- Two minutes, in nanoseconds.
abbrev pub proof_lifetime : ℕ
proof_lifetime = 120000000000

abbrev pub one_minute : ℕ
one_minute = 60000000000

-- The proof, the key and the fingerprint, or an error.
pub data Verification : Type 0 where
  refused : ProofError → Verification
  verified : IdentityProof → Text → Text → Verification

module _ (crypto : Crypto) where
  unfoldable pub fingerprint : Text → Text
  fingerprint key = to_lower (crypto.encode_base32 (crypto.sha256 key))

  unfoldable pub decode_public_key : Text → Option Text
  decode_public_key value = elim (crypto.decode_base64 value) [
    | none ↦ none
    | some decoded ↦ if length decoded == 32 then some decoded else none
  ]

  -- The first twelve characters of the fingerprint.
  abbrev pub suffix_of : Text → Text
  suffix_of fp = take address_suffix_length fp

  unfoldable pub canonical_address : Text → Text → Option Text
  canonical_address base_name key =
      if valid_base_name base_name
      then some (base_name ++ b'-' ∷ suffix_of (fingerprint key))
      else none

  unfoldable pub address_matches_key : Text → Text → Bool
  address_matches_key address key =
      valid_address address && has_suffix (b'-' ∷ suffix_of (fingerprint key)) address

  abbrev pub signed_parts : SignalType → Text → Text → Text → IdentityProof → List Text
  signed_parts type call_id from to proof =
      codes "2"
      ∷ type_text type
      ∷ call_id
      ∷ from
      ∷ to
      ∷ proof.public_key
      ∷ crypto.format_time proof.expires_at
      ∷ proof.nonce
      ∷ []

  unfoldable pub proof_bytes : SignalType → Text → Text → Text → IdentityProof → Text
  proof_bytes type call_id from to proof = join_nul (signed_parts type call_id from to proof)

  check_signature : SignalMessage → IdentityProof → Text → Option Text → Verification
  check_signature m p key none = refused signature_encoding
  check_signature m p key (some signature) =
      if not (length signature == 64)
      then refused signature_encoding
      else if crypto.ed25519_verify key (proof_bytes m.type m.call_id m.from m.to p) signature
      then verified p key (fingerprint key)
      else refused bad_signature

  check_key : SignalMessage → ℕ → IdentityProof → Option Text → Verification
  unfolding check_signature
  check_key m now p none = refused bad_key
  check_key m now p (some key) =
      if ltb p.expires_at now || ltb (now + (proof_lifetime + one_minute)) p.expires_at
      then refused out_of_window
      else if not (address_matches_key m.from key)
      then refused wrong_suffix
      else check_signature m p key (crypto.decode_base64 p.signature)

  check_proof : SignalMessage → ℕ → Option IdentityProof → Verification
  unfolding check_key
  check_proof m now none = refused no_proof
  check_proof m now (some p) = check_key m now p (decode_public_key p.public_key)

  unfoldable pub verify : SignalMessage → ℕ → Verification
  unfolding check_proof
  verify m now = check_proof m now (crypto.decode_proof m.payload)

  -- `validateIdentity`, for an identity that is there
  abbrev pub is_complete : Identity → Bool
  is_complete i =
      length i.public_key == 32
      && length i.private_key == 64
      && text_eq (drop 32 i.private_key) i.public_key

  abbrev unsigned : Identity → Text → ℕ → IdentityProof
  unsigned i nonce now = record {
    public_key = crypto.encode_base64 i.public_key;
    expires_at = now + proof_lifetime;
    nonce = nonce;
    signature = [];
  }

  -- `nonce` is what `uuid.NewString` gives.
  unfoldable pub sign : Identity → SignalType → Text → Text → Text → ℕ → Text → Option IdentityProof
  sign i type call_id from to now nonce =
      let p = unsigned i nonce now in
      if is_complete i
      then some (record p {
        signature =
            crypto.encode_base64
              (crypto.ed25519_sign i.private_key (proof_bytes type call_id from to p));
      })
      else none
