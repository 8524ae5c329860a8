-- ===== src/Client/Ready.antt =====
-- A client that is connected, and the proofs of its messages.
use go_cli_messenger.Common.{
  ℕ, ◌+◌, ◌≤◌, ◌≡◌, refl, if_intro, Bool, true, false, ◌||◌, not, Option, none, some, List, length,
  Text, text_eq, arith,
}
use go_cli_messenger.Protocol.Signal.{SignalMessage, SignalType, session_ready}
use go_cli_messenger.Protocol.Message.{Json, IdentityProof}
use go_cli_messenger.Protocol.Validate.{Validator, Result, ok, err, decode_signal}
use go_cli_messenger.Identity.Proof.{
  Crypto, Identity, verified, fingerprint, address_matches_key, verify, sign, proof_lifetime,
  one_minute,
}
use go_cli_messenger.Identity.Proof.Signed.{verify-sign}
use go_cli_messenger.Client.{
  Env, Config, Url, Problem, Read, read_failed, frame, message_of, validated, signs_itself,
  new_message, keeps_secret, is_websocket, is_valid, connected, failed, Client, connect,
  check_config, check_url, owns, is_ready, on_ready, with_hello, dial, hello_of, greeted, Hello,
  welcome, refused,
}

-- A message is signed by the client that makes it: the hello, an invitation or an acceptance that
-- it makes is verified as one by its key, by a server or a client whose clock is not more than one minute
-- behind and two minutes ahead, where the cryptography works and a proof is read as it was written.
pub verify-new_message :
    (json : Json) (v : Validator) (crypto : Crypto) (i : Identity) (env : Env) (type : SignalType)
    (from to call_id : Text) (m : SignalMessage) (later : ℕ)
    → ((s : Text) → crypto.decode_base64 (crypto.encode_base64 s) ≡ some s)
    → ((key s : Text) → length (crypto.ed25519_sign key s) ≡ 64)
    → ((s : Text)
        → crypto.ed25519_verify i.public_key s (crypto.ed25519_sign i.private_key s) ≡ true)
    → ((p : IdentityProof) → crypto.decode_proof (env.write_proof p) ≡ some p)
    → address_matches_key crypto from i.public_key ≡ true
    → signs_itself type ≡ true
    → new_message json v crypto i env type from to call_id none ≡ some m
    → env.now ≤ later + one_minute
    → later ≤ env.now + proof_lifetime
    → (p : IdentityProof) × (verify crypto m later
        ≡ verified p i.public_key (fingerprint crypto i.public_key))
unfolding new_message
verify-new_message json v crypto i env type from to call_id m later reads size pair writes own signs
      made early late =
    by_proof (sign crypto i type call_id from to env.now env.nonce) refl
      (ground (arith, made, signs))
  where
    Verified : SignalMessage → Type 0
    Verified m =
        (p : IdentityProof) × (verify crypto m later
          ≡ verified p i.public_key (fingerprint crypto i.public_key))

    by_proof :
        (o : Option IdentityProof)
        → sign crypto i type call_id from to env.now env.nonce ≡ o
        → elim o [
          | none ↦ none
          | some p ↦ validated json v (message_of env type from to call_id (env.write_proof p))
        ]
          ≡ some m
        → Verified m
    by_proof none s h = ground arith
    by_proof (some p) s h =
        let n = message_of env type from to call_id (env.write_proof p) in
        if_intro (λ o. o ≡ some m → Verified m) (is_valid json v n) _ _
          (λ valid e.
            let same : n ≡ m = ground arith in
            rw (← same) (
              p,
              verify-sign crypto i n env.nonce env.now later p reads size pair s (writes p) own
                  early late,
            ))
          (λ valid e. ground arith) h

-- What the checks before the connection make sure of.
pub record Checked (crypto : Crypto) (parse_url : Text → Option Url) (c : Config) : Type 0 where
  pub own_identity : Identity
  pub has_identity : c.identity ≡ some own_identity
  pub own_address : address_matches_key crypto c.address own_identity.public_key ≡ true
  pub url : Url
  pub is_url : parse_url c.url ≡ some url
  pub websocket : is_websocket url ≡ true
  pub secret : keeps_secret c.access_key url ≡ true

-- The server has said that the session is ready for the address.
pub record Welcomed (json : Json) (v : Validator) (address : Text) (answer : Read) : Type 0 where
  pub bytes : Text
  pub ready : SignalMessage
  pub is_text : answer ≡ frame true bytes
  pub decoded : decode_signal json bytes v ≡ ok ready
  pub of_type : ready.type ≡ session_ready
  pub to_us : text_eq ready.to address ≡ true

module _ (crypto : Crypto) (parse_url : Text → Option Url) (c : Config) where
  check_config-Checked : check_config crypto parse_url c ≡ none → Checked crypto parse_url c
  unfolding check_config
  check_config-Checked h =
      by_identity c.identity refl (parse_url c.url) refl (ground arith) (ground arith)
    where
      by_identity :
          (i : Option Identity)
          → c.identity ≡ i
          → (u : Option Url) → parse_url c.url ≡ u
          → owns crypto c.address i ≡ true
          → check_url c.access_key u ≡ none
          → Checked crypto parse_url c
      by_identity none e u f own h = ground arith
      by_identity (some i) e none f own h = ground arith
      by_identity (some i) e (some u) f own h = record {
        own_identity = i;
        has_identity = e;
        own_address = own;
        url = u;
        is_url = f;
        websocket = ground arith;
        secret = ground arith;
      }

module _ (json : Json) (v : Validator) where
  greeted-Welcomed :
      (address : Text) (answer : Read) (urls : List Text)
      → greeted json v address answer ≡ welcome urls
      → Welcomed json v address answer
  unfolding greeted
  greeted-Welcomed address read_failed urls = λ h. ground arith
  greeted-Welcomed address (frame is_text bytes) urls =
      by_message is_text (decode_signal json bytes v) refl
    where
      type_of : (t : SignalType) → is_ready json v t ≡ true → t ≡ session_ready
      type_of session_ready h = refl
      type_of t h = ground arith

      by_message :
          (b : Bool) (r : Result SignalMessage)
          → decode_signal json bytes v ≡ r
          → on_ready json v address b r ≡ welcome urls
          → Welcomed json v address (frame b bytes)
      by_message b (err e) d = λ h. ground arith
      by_message false (ok m) d = λ h. ground arith
      by_message true (ok m) d =
          if_intro (λ x. x ≡ welcome urls → Welcomed json v address (frame true bytes))
            (not (is_ready json v m.type) || not (text_eq m.to address)) _ _ (λ t h. ground arith)
            (λ t h. record {
              bytes = bytes;
              ready = m;
              is_text = refl;
              decoded = d;
              of_type = type_of m.type (ground arith);
              to_us = ground arith;
            })

-- A client that is connected has an identity that owns its address; its server is reached by a
-- WebSocket, through TLS or on this machine if there is an access key; and the server has answered with
-- a valid session.ready for this address.
pub connect-Welcomed :
    (json : Json) (v : Validator) (crypto : Crypto) (parse_url : Text → Option Url) (env : Env)
    (c : Config) (dialled written : Bool) (answer : Read) (client : Client)
    → connect json v crypto parse_url env c dialled written answer ≡ connected client
    → Checked crypto parse_url c × Welcomed json v c.address answer
unfolding connect
connect-Welcomed json v crypto parse_url env c dialled written answer client h =
    by_check (check_config crypto parse_url c) refl h
  where
    Result : Type 0
    Result = Checked crypto parse_url c × Welcomed json v c.address answer

    by_hello :
        (x : Hello)
        → greeted json v c.address answer ≡ x
        → with_hello json v c x ≡ connected client
        → Welcomed json v c.address answer
    by_hello (refused e) g h = ground arith
    by_hello (welcome urls) g h = greeted-Welcomed json v c.address answer urls g

    by_check :
        (o : Option Problem)
        → check_config crypto parse_url c ≡ o
        → elim o [
          | some e ↦ failed e
          | none ↦ dial json v c dialled (hello_of json v crypto env c) written answer
        ]
          ≡ connected client
        → Result
    by_check (some e) k h = ground arith
    by_check none k h = (
      check_config-Checked crypto parse_url c k,
      by_hello (greeted json v c.address answer) refl (ground arith),
    )
