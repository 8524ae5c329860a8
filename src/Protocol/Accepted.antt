-- ===== src/Protocol/Accepted.antt =====
-- What the validators let through, said without the order of their checks.
use go_cli_messenger.Common.{
  ℕ, ◌+◌, ◌≤◌, ◌≡◌, ◌≢◌, refl, ◌⊎◌, inl, ◌↔◌, Bool, true, false, ◌||◌, not, leb, ℤ, pos,
  if◌then◌else◌, Option, none, some, [], ◌∷◌, all_of, length, Text, codes, text_eq_iff, arith,
  leb→le,
}
use go_cli_messenger.Protocol.Signal.{
  SignalType, SignalMessage, session_hello, session_ready, session_error, call_invite, call_accept,
  webrtc_offer, webrtc_answer, webrtc_ice, is_known, is_sdp, requires_call_id, valid_stun_url,
  max_sdp_message_size,
}
use go_cli_messenger.Protocol.Names.{valid_uuid, valid_address}
use go_cli_messenger.Protocol.Space.{trim_space}
use go_cli_messenger.Protocol.Message.{Json, IdentityProof, required_payload, decode_json}
use go_cli_messenger.Protocol.Validate.{
  Error, Result, ok, err, ◌>>◌, check, Validator, or_default, day, five_minutes, validate_common,
  check_parties, check_payload, validate_signal, decode_signal, decoded, size_limit, is_party,
}

abbrev pub IsParty : Text → Type 0
IsParty name = (name ≡ []) ⊎ (name ≡ codes "server") ⊎ (valid_address name ≡ true)

-- A payload that is there, is no `null` and decodes to a value that the predicate holds of.
abbrev pub Holds {ℓ} : {A : Type ℓ} → (A → Type 0) → Option A → Type 0
Holds P none = ⊥
Holds P (some a) = P a

abbrev pub Parties : SignalType → Text → Text → Type 0
Parties session_hello from to = from ≢ []
Parties session_ready from to = to ≢ []
Parties session_error from to = to ≢ []
Parties _ from to = (from ≢ []) × (to ≢ [])

pub record ProofShape (p : IdentityProof) : Type 0 where
  pub nonce_valid : valid_uuid p.nonce ≡ true
  pub expiry_set : p.expires_at ≢ 0
  pub key_low : 40 ≤ length p.public_key
  pub key_high : length p.public_key ≤ 64
  pub signature_low : 80 ≤ length p.signature
  pub signature_high : length p.signature ≤ 128

abbrev pub Payload : Json → SignalType → Text → Type 0
Payload json session_ready raw =
    (raw ≡ [])
    ⊎ Holds (λ urls. (length urls ≤ 8) × (all_of valid_stun_url urls ≡ true))
        (required_payload json.session_ready raw)
Payload json webrtc_offer raw = Holds (λ sdp. trim_space sdp ≢ []) (required_payload json.sdp raw)
Payload json webrtc_answer raw = Holds (λ sdp. trim_space sdp ≢ []) (required_payload json.sdp raw)
Payload json webrtc_ice raw =
    Holds (λ c. (c ≢ []) × (length c ≤ 4096)) (required_payload json.candidate raw)
Payload json session_hello raw = Holds ProofShape (required_payload json.proof raw)
Payload json call_invite raw = Holds ProofShape (required_payload json.proof raw)
Payload json call_accept raw = Holds ProofShape (required_payload json.proof raw)
Payload json _ raw = Unit

pub record Accepted (json : Json) (v : Validator) (m : SignalMessage) : Type 0 where
  pub version_two : m.version ≡ pos 2
  pub id_valid : valid_uuid m.id ≡ true
  pub dated : m.timestamp ≢ 0
  pub not_old : v.now ≤ m.timestamp + or_default v.maximum_age day
  pub not_future : m.timestamp ≤ v.now + or_default v.maximum_future five_minutes
  pub known : is_known m.type ≡ true
  pub from_party : IsParty m.from
  pub to_party : IsParty m.to
  pub call_named : requires_call_id m.type ≡ true → valid_uuid m.call_id ≡ true
  pub parties : Parties m.type m.from m.to
  pub payload_fits : Payload json m.type m.payload

then_ok :
    {B : Type 0} {b : B} (m : Result (Unit {0})) (k : Result B)
    → (m >> k) ≡ ok b
    → (m ≡ ok tt) × (k ≡ ok b)
then_ok (ok tt) k h = (refl, h)
then_ok (err e) k h = cc

ok_then : (m k : Result (Unit {0})) → m ≡ ok tt → k ≡ ok tt → (m >> k) ≡ ok tt
ok_then m k e h = rw e h

checked : (b : Bool) (e : Error) → check b e ≡ ok tt → b ≡ true
checked true e h = refl
checked false e h = cc

check-true : {b : Bool} (e : Error) → b ≡ true → check b e ≡ ok tt
check-true e h = rw h

Common-iff :
    (v : Validator) (version : ℤ) (id : Text) (timestamp : ℕ)
    → (validate_common v version id timestamp ≡ ok tt) ↔ (
        (version ≡ pos 2)
        × (valid_uuid id ≡ true)
        × (timestamp ≢ 0)
        × (v.now ≤ timestamp + or_default v.maximum_age day)
        × (timestamp ≤ v.now + or_default v.maximum_future five_minutes))
unfolding validate_common
Common-iff v version id timestamp =
    (λ h. (ground arith, ground arith, ground arith, ground arith, ground arith), λ h. ground arith)

IsParty-iff : (name : Text) → (is_party name ≡ true) ↔ IsParty name
IsParty-iff [] = (λ h. inl refl, λ h. refl)
IsParty-iff (c ∷ s) = (
  λ h. ground (arith, text_eq_iff (c ∷ s) (codes "server")),
  λ h. ground (arith, text_eq_iff (c ∷ s) (codes "server")),
)

Parties-iff :
    (type : SignalType) (from to : Text)
    → (check_parties type from to ≡ ok tt) ↔ Parties type from to
Parties-iff session_hello from to = (λ h. ground arith, λ h. ground arith)
Parties-iff type from to = (λ h. ground arith, λ h. ground arith)

module _ (json : Json) where
  Payload-iff :
      (type : SignalType) (raw : Text)
      → (check_payload json type raw ≡ ok tt) ↔ Payload json type raw
  unfolding check_payload
  Payload-iff session_ready raw = (λ h. ground arith, λ h. ground arith)
  Payload-iff type raw = (λ h. ground arith, λ h. ground arith)

  module _ (v : Validator) (m : SignalMessage) where
    Accepted-of_ok : validate_signal json v m ≡ ok tt → Accepted json v m
    unfolding validate_signal
    Accepted-of_ok h =
        let (common, h₁) = then_ok (validate_common v m.version m.id m.timestamp) _ h in
        let (known, h₂) = then_ok (check (is_known m.type) _) _ h₁ in
        let (from, h₃) = then_ok (check (is_party m.from) _) _ h₂ in
        let (to, h₄) = then_ok (check (is_party m.to) _) _ h₃ in
        let (id, h₅) =
          then_ok (check (not (requires_call_id m.type) || valid_uuid m.call_id) _) _ h₄ in
        let (parties, payload) = then_ok (check_parties m.type m.from m.to) _ h₅ in
        let (version, uuid, dated, old, future) =
          (Common-iff v m.version m.id m.timestamp).0 common in
        record {
          version_two = version;
          id_valid = uuid;
          dated = dated;
          not_old = old;
          not_future = future;
          known = checked _ _ known;
          from_party = (IsParty-iff m.from).0 (checked _ _ from);
          to_party = (IsParty-iff m.to).0 (checked _ _ to);
          call_named = named (requires_call_id m.type) (valid_uuid m.call_id) (checked _ _ id);
          parties = (Parties-iff m.type m.from m.to).0 parties;
          payload_fits = (Payload-iff m.type m.payload).0 payload;
        }
      where
        named : (r u : Bool) → (not r || u) ≡ true → r ≡ true → u ≡ true
        named r u h k = ground arith

    ok_of_Accepted : Accepted json v m → validate_signal json v m ≡ ok tt
    unfolding validate_signal
    ok_of_Accepted a =
        ok_then (validate_common v m.version m.id m.timestamp) _
          ((Common-iff v m.version m.id m.timestamp).1
            (a.version_two, a.id_valid, a.dated, a.not_old, a.not_future))
          (ok_then (check (is_known m.type) _) _ (check-true _ a.known) (
            ok_then (check (is_party m.from) _) _
              (check-true _ ((IsParty-iff m.from).1 a.from_party))
              (ok_then (check (is_party m.to) _) _ (check-true _ ((IsParty-iff m.to).1 a.to_party))
                (ok_then (check (not (requires_call_id m.type) || valid_uuid m.call_id) _) _
                  (check-true _
                    (named (requires_call_id m.type) (valid_uuid m.call_id) a.call_named))
                  (ok_then (check_parties m.type m.from m.to) _
                    ((Parties-iff m.type m.from m.to).1 a.parties)
                    ((Payload-iff m.type m.payload).1 a.payload_fits))))))
      where
        named : (r u : Bool) → (r ≡ true → u ≡ true) → (not r || u) ≡ true
        named true u h = h refl
        named false u h = refl

  -- A signaling message is accepted exactly when it meets all the conditions of `Accepted`: version,
  -- ids, dates, parties, and what its type asks of its payload.
  pub validate_signal_iff :
      (v : Validator) (m : SignalMessage) → (validate_signal json v m ≡ ok tt) ↔ Accepted json v m
  validate_signal_iff v m = (Accepted-of_ok v m, ok_of_Accepted v m)

  decoded-Accepted :
      (v : Validator) (bytes : Text) (o : Option SignalMessage) (m : SignalMessage)
      → decoded json v bytes o ≡ ok m
      → (o ≡ some m) × Accepted json v m × (length bytes ≤ size_limit json m.type)
  unfolding decoded
  decoded-Accepted v bytes none m h = cc
  decoded-Accepted v bytes (some n) m h =
      let (fits, h₁) = then_ok (check (leb (length bytes) (size_limit json n.type)) _) _ h in
      let (valid, h₂) = then_ok (validate_signal json v n) _ h₁ in
      let same : n ≡ m = cc in
      rw (← same) (refl, Accepted-of_ok v n valid, leb→le _ _ (checked _ _ fits))

  -- What comes out of the decoder is a message that the validator accepts, and the bytes were no more
  -- than 64 KiB, or 256 KiB for an offer or an answer.
  pub decode_signal-Accepted :
      (bytes : Text) (v : Validator) (m : SignalMessage)
      → decode_signal json bytes v ≡ ok m
      → (decode_json json.signal bytes ≡ some m)
        × Accepted json v m
        × (length bytes ≤ (if is_sdp m.type then 262144 else 65536))
  unfolding decode_signal
  decode_signal-Accepted bytes v m h =
      decoded-Accepted v bytes (decode_json json.signal bytes) m
        (then_ok (check (leb (length bytes) max_sdp_message_size) _) _ h).1
