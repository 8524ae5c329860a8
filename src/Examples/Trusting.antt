-- ===== src/Examples/Trusting.antt =====
-- A trust store with two keys.
use go_cli_messenger.Common.{
  ◌≡◌, refl, false, some, none, [], ◌∷◌, Text, codes, lookup, insert, text_eq, has_prefix,
}
use go_cli_messenger.Identity.Proof.{Crypto, fingerprint}
use go_cli_messenger.Identity.Trust.{
  Alias, TrustRecord, Records, found, resolve, valid_fingerprint_text, lower_text, matching,
  observe, contains_alias, sharing,
}
use go_cli_messenger.Identity.Safety.{safety_code}
use go_cli_messenger.Identity.Trust.Resolved.{Observed, observe-Observed}

abbrev home : Alias
home = record { server_url = codes "wss"; address = codes "ann" }

abbrev key_record : Text → TrustRecord
key_record fp = record {
  fingerprint = fp;
  trusted = false;
  blocked = false;
  public_key = fp;
  aliases = home ∷ [];
}

abbrev first_key : Text
first_key = codes "abc"

abbrev second_key : Text
second_key = codes "abd"

abbrev known : Records
known = (first_key, key_record first_key) ∷ (second_key, key_record second_key) ∷ []

upper_case_resolved : resolve (codes " ABC ") known ≡ found first_key
unfolding resolve lower_text valid_fingerprint_text matching has_prefix
upper_case_resolved = refl

-- The fingerprint of a key is `abe` here, whatever the key.
abbrev crypto : Crypto
crypto = record {
  decode_proof = λ s. none;
  encode_base64 = λ s. s;
  decode_base64 = λ s. some s;
  encode_base32 = λ s. codes "ABE";
  sha256 = λ s. s;
  ed25519_sign = λ k s. [];
  ed25519_verify = λ k s signature. false;
  format_time = λ t. [];
}

abbrev seen_record : TrustRecord
seen_record = record (key_record (codes "abe")) { public_key = codes "key" }

abbrev after : Records
after =
    (first_key, key_record first_key)
    ∷ (second_key, key_record second_key)
    ∷ (codes "abe", seen_record)
    ∷ []

observed :
    observe crypto (codes "wss") (codes "ann") (codes "key") known
    ≡ (after, found (seen_record, first_key ∷ second_key ∷ []))
unfolding observe fingerprint contains_alias sharing lookup insert text_eq
observed = refl

observe-Observed_example :
    Observed crypto
      (fingerprint crypto (codes "key"))
      home
      (codes "key")
      known
      after
      seen_record
      (first_key ∷ second_key ∷ [])
observe-Observed_example =
    observe-Observed crypto (codes "wss") (codes "ann") (codes "key") known after seen_record
      (first_key ∷ second_key ∷ []) (unfold lookup text_eq in (refl, (refl, tt))) observed

code_of_two : safety_code crypto (codes "ab") (codes "aa") (codes "id") ≡ codes "6161616269"
unfolding safety_code
code_of_two = refl
