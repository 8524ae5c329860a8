-- ===== src/Identity/Trust.antt =====
-- `TrustStore` of internal/identity/trust.go: what a user knows of the keys of others. The store is its
-- table of records; writing it to a file, which comes after each change and may fail, is left out.
pub mod Resolved
use go_cli_messenger.Common.{
  ℕ, ◌+◌, Bool, true, false, ◌&&◌, ◌||◌, not, ◌==◌, leb, ltb, if◌then◌else◌, Option, none, some,
  List, [], ◌∷◌, ◌++◌, length, all_of, Text, text_eq, is_empty, has_prefix, Dict, lookup, insert,
}
use go_cli_messenger.Protocol.Space.{trim_space}
use go_cli_messenger.Identity.Proof.{Crypto, fingerprint}

pub record Alias : Type 0 where
  pub server_url : Text
  pub address : Text

pub record TrustRecord : Type 0 where
  pub fingerprint : Text
  pub trusted : Bool
  pub blocked : Bool
  pub public_key : Text
  pub aliases : List Alias

pub data Problem : Type 0 where
  malformed ambiguous_fingerprint unknown_fingerprint inconsistent : Problem

-- What an operation comes to.
pub data Answer {ℓ} (A : Type ℓ) : Type ℓ where
  problem : Problem → Answer A
  found : A → Answer A

abbrev pub Records : Type 0
Records = Dict TrustRecord

-- A missing record reads as the zero value.
abbrev pub record_or_zero : Option TrustRecord → TrustRecord
record_or_zero (some r) = r
record_or_zero none = record {
  fingerprint = [];
  trusted = false;
  blocked = false;
  public_key = [];
  aliases = [];
}

abbrev pub same_alias : Alias → Alias → Bool
same_alias a b = text_eq a.server_url b.server_url && text_eq a.address b.address

unfoldable pub contains_alias : List Alias → Alias → Bool
contains_alias [] wanted = false
contains_alias (value ∷ values) wanted = same_alias value wanted || contains_alias values wanted

-- `[a-z2-7]`, between 1 and 52 of them
unfoldable pub valid_fingerprint_text : Text → Bool
valid_fingerprint_text value =
    not (length value == 0 || ltb 52 (length value))
    && all_of (λ c. leb b'a' c && leb c b'z' || leb b'2' c && leb c b'7') value

-- strings.ToLower, as far as the result can be a fingerprint: the letters A to Z, and the two others
-- whose lower case is ASCII, U+0130 and U+212A.
unfoldable pub lower_text : Text → Text
lower_text [] = []
lower_text (a ∷ []) = (if leb b'A' a && leb a b'Z' then a + 32 else a) ∷ []
lower_text (a ∷ b ∷ []) =
    if a == 0xC4 && b == 0xB0
    then b'i' ∷ []
    else (if leb b'A' a && leb a b'Z' then a + 32 else a) ∷ lower_text (b ∷ [])
lower_text (a ∷ b ∷ c ∷ s) =
    let after_two = lower_text (c ∷ s) in
    let after_three = lower_text s in
    let after_one = lower_text (b ∷ c ∷ s) in
    if a == 0xC4 && b == 0xB0
    then b'i' ∷ after_two
    else if a == 0xE2 && b == 0x84 && c == 0xAA
    then b'k' ∷ after_three
    else (if leb b'A' a && leb a b'Z' then a + 32 else a) ∷ after_one

-- The fingerprints in the table that begin with the text.
unfoldable pub matching : Text → Records → List Text
matching value [] = []
matching value ((fp, r) ∷ records) =
    if has_prefix value fp then fp ∷ matching value records else matching value records

abbrev pub only : List Text → Answer Text
only [] = problem unknown_fingerprint
only (fp ∷ []) = found fp
only (fp ∷ other ∷ rest) = problem ambiguous_fingerprint

abbrev pub resolve_text : Text → Records → Answer Text
resolve_text value records =
    if not (valid_fingerprint_text value)
    then problem malformed
    else if length value == 52
    then found value
    else only (matching value records)

unfoldable pub resolve : Text → Records → Answer Text
unfolding trim_space
resolve value records = resolve_text (lower_text (trim_space value)) records

abbrev put : (TrustRecord → TrustRecord) → Answer Text → Records → Records × Answer TrustRecord
put change (problem p) records = (records, problem p)
put change (found fp) records =
    let r = change (record (record_or_zero (lookup fp records)) { fingerprint = fp }) in
    (insert fp r records, found r)

unfoldable pub set_trusted : Text → Bool → Records → Records × Answer TrustRecord
set_trusted value trusted records =
    put (λ r. record r { trusted = trusted }) (resolve value records) records

unfoldable pub set_blocked_fingerprint : Text → Bool → Records → Records × Answer TrustRecord
set_blocked_fingerprint value blocked records =
    put (λ r. record r { blocked = blocked }) (resolve value records) records

-- `s.records[fingerprint]`
unfoldable pub record_of : Text → Records → Option TrustRecord
record_of fp records = lookup fp records

-- Bytewise order, as Go compares strings.
abbrev pub text_less : Text → Text → Bool
text_less s [] = false
text_less [] (d ∷ t) = true
text_less (c ∷ s) (d ∷ t) = ltb c d || (c == d && text_less s t)

abbrev pub place : Text → List Text → List Text
place fp [] = fp ∷ []
place fp (other ∷ rest) =
    let later = place fp rest in if text_less other fp then other ∷ later else fp ∷ other ∷ rest

-- sort.Strings
abbrev pub sort_texts : List Text → List Text
sort_texts [] = []
sort_texts (fp ∷ rest) = place fp (sort_texts rest)

-- The other fingerprints that have been seen with the alias.
unfoldable pub sharing : Text → Alias → Records → List Text
sharing fp alias [] = []
sharing fp alias ((other, r) ∷ records) =
    if not (text_eq other fp) && contains_alias r.aliases alias
    then other ∷ sharing fp alias records
    else sharing fp alias records

abbrev pub with_alias : Alias → List Alias → List Alias
with_alias alias aliases = if contains_alias aliases alias then aliases else aliases ++ alias ∷ []

unfoldable pub observe :
    Crypto → Text → Text → Text → Records → Records × Answer (TrustRecord × List Text)
observe crypto server_url address public_key records =
    let fp = fingerprint crypto public_key in
    let old = record_or_zero (lookup fp records) in
    let encoded = crypto.encode_base64 public_key in
    let alias : Alias = record { server_url = server_url; address = address } in
    let new : TrustRecord = record old {
      fingerprint = fp;
      public_key = encoded;
      aliases = with_alias alias old.aliases;
    } in
    if not (is_empty old.public_key) && not (text_eq old.public_key encoded)
    then (records, problem inconsistent)
    else (insert fp new records, found (new, sort_texts (sharing fp alias records)))
