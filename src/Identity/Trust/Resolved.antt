-- ===== src/Identity/Trust/Resolved.antt =====
-- Which key a prefix names, and what an observation leaves alone.
use go_cli_messenger.Common.{
  ◌≡◌, ◌≢◌, ◌↔◌, ◌⊎◌, refl, ap, ◌∙◌, sym, subst, inl, inr, true, ==_iff, Option, none, some,
  is_some, List, [], ◌∷◌, length, Text, text_eq_iff, has_prefix, IsDict, lookup, insert,
  lookup-insert_self, lookup-insert_ne, text_eq_refl, arith, ◌++◌,
}
use go_cli_messenger.Identity.Proof.{Crypto, fingerprint}
use go_cli_messenger.Identity.Trust.{
  Alias, TrustRecord, Records, found, record_or_zero, contains_alias, valid_fingerprint_text,
  matching, only, resolve_text, observe, sharing, sort_texts, place, with_alias,
}

abbrev pub Listed : Text → List Text → Type 0
Listed fp [] = ⊥
Listed fp (other ∷ rest) = (other ≡ fp) ⊎ Listed fp rest

-- A fingerprint of the table that begins with the text.
abbrev pub Fits : Text → Records → Text → Type 0
Fits value records fp = (is_some (lookup fp records) ≡ true) × (has_prefix value fp ≡ true)

Fits-of_Listed :
    (value fp : Text) (records : Records)
    → Listed fp (matching value records)
    → Fits value records fp
unfolding matching lookup
Fits-of_Listed value fp [] l = absurd l
Fits-of_Listed value fp ((k, r) ∷ records) l =
    ground (arith, Fits-of_Listed value fp records, text_eq_iff k fp)

Listed-of_Fits :
    (value fp : Text) (records : Records)
    → Fits value records fp
    → Listed fp (matching value records)
unfolding matching lookup
Listed-of_Fits value fp [] l = absurd (ground arith)
Listed-of_Fits value fp ((k, r) ∷ records) l =
    ground (arith, Listed-of_Fits value fp records, text_eq_iff k fp)

abbrev HeadOnce : List Text → Type 0
HeadOnce [] = Unit
HeadOnce (fp ∷ rest) = ¬ Listed fp rest

matching-HeadOnce :
    (value : Text) (records : Records) → IsDict records → HeadOnce (matching value records)
unfolding matching
matching-HeadOnce value [] d = tt
matching-HeadOnce value ((k, r) ∷ records) d =
    ground (arith, matching-HeadOnce value records d.1, Fits-of_Listed value k records)

-- The only fingerprint of the table that begins with the text.
abbrev pub Unique : Text → Records → Text → Type 0
Unique value records fp =
    Fits value records fp × ((other : Text) → Fits value records other → other ≡ fp)

only_one : (l : List Text) (fp : Text) → only l ≡ found fp → l ≡ fp ∷ []
only_one [] fp h = absurd (ground arith)
only_one (x ∷ []) fp h = ground arith
only_one (x ∷ y ∷ l) fp h = absurd (ground arith)

Listed-one :
    (l : List Text) (fp : Text)
    → HeadOnce l
    → Listed fp l
    → ((other : Text) → Listed other l → other ≡ fp)
    → l ≡ fp ∷ []
Listed-one [] fp once here alone = absurd here
Listed-one (x ∷ []) fp once here alone = ap (λ y. y ∷ []) (alone x (inl refl))
Listed-one (x ∷ y ∷ l) fp once here alone =
    absurd (once (inl (alone y (inr (inl refl)) ∙ sym (alone x (inl refl)))))

module _ (value fp : Text) (records : Records) (d : IsDict records) where
  Unique-of_only : only (matching value records) ≡ found fp → Unique value records fp
  Unique-of_only h =
      let one = only_one (matching value records) fp h in
      (
        Fits-of_Listed value fp records (subst (Listed fp) (sym one) (inl refl)),
        λ other fits.
            same other (subst (Listed other) one (Listed-of_Fits value other records fits)),
      )
    where
      same : (other : Text) → Listed other (fp ∷ []) → other ≡ fp
      same other (inl e) = sym e
      same other (inr e) = absurd e

  only-of_Unique : Unique value records fp → only (matching value records) ≡ found fp
  only-of_Unique u = ap only (
      Listed-one (matching value records) fp (matching-HeadOnce value records d)
        (Listed-of_Fits value fp records u.0)
        (λ other here. u.1 other (Fits-of_Listed value other records here)))

  -- A prefix of a fingerprint, in its alphabet and shorter than a whole one, is resolved to a
  -- fingerprint exactly when that is the only one in the table that begins with it.
  pub resolve_text_iff :
      valid_fingerprint_text value ≡ true
      → length value ≢ 52
      → (resolve_text value records ≡ found fp) ↔ Unique value records fp
  resolve_text_iff valid short = (
    λ h. Unique-of_only (ground (arith, ==_iff (length value) 52)),
    λ u. ground (arith, only-of_Unique u, ==_iff (length value) 52),
  )

Listed-place : (fp x : Text) (l : List Text) → Listed fp (place x l) ↔ ((x ≡ fp) ⊎ Listed fp l)
Listed-place fp x [] = (λ h. h, λ h. h)
Listed-place fp x (y ∷ l) =
    (λ h. ground (arith, Listed-place fp x l), λ h. ground (arith, Listed-place fp x l))

Listed-sort : (fp : Text) (l : List Text) → Listed fp (sort_texts l) ↔ Listed fp l
Listed-sort fp [] = (λ h. h, λ h. h)
Listed-sort fp (x ∷ l) = (
  λ h. ground (arith, Listed-place fp x (sort_texts l), Listed-sort fp l),
  λ h. ground (arith, Listed-place fp x (sort_texts l), Listed-sort fp l),
)

-- Another key that has been seen with the alias.
abbrev pub Shares : Text → Alias → Option TrustRecord → Text → Type 0
Shares fp alias none other = ⊥
Shares fp alias (some r) other = (other ≢ fp) × (contains_alias r.aliases alias ≡ true)

sharing-Shares :
    (fp other : Text) (alias : Alias) (records : Records)
    → IsDict records
    → Listed other (sharing fp alias records)
    → Shares fp alias (lookup other records) other
unfolding sharing lookup
sharing-Shares fp other alias [] d h = absurd h
sharing-Shares fp other alias ((k, r) ∷ records) d h =
    ground (arith, sharing-Shares fp other alias records d.1, text_eq_iff k fp, text_eq_iff k other)

Shares-sharing :
    (fp other : Text) (alias : Alias) (records : Records)
    → Shares fp alias (lookup other records) other
    → Listed other (sharing fp alias records)
unfolding sharing lookup
Shares-sharing fp other alias [] h = absurd h
Shares-sharing fp other alias ((k, r) ∷ records) h =
    ground (arith, Shares-sharing fp other alias records, text_eq_iff k fp, text_eq_iff k other)

contains_alias-append :
    (l : List Alias) (alias : Alias) → contains_alias (l ++ alias ∷ []) alias ≡ true
unfolding contains_alias
contains_alias-append [] alias =
    ground (arith, text_eq_refl alias.server_url, text_eq_refl alias.address)
contains_alias-append (x ∷ l) alias = ground (arith, contains_alias-append l alias)

with_alias-contains :
    (l : List Alias) (alias : Alias) → contains_alias (with_alias alias l) alias ≡ true
with_alias-contains l alias = ground (arith, contains_alias-append l alias)

-- What an observation that is taken leaves behind.
pub record Observed (crypto : Crypto) (fp : Text) (alias : Alias) (key : Text) (records n : Records)
    (r : TrustRecord) (reused : List Text) : Type 0 where
  pub same_trust : r.trusted ≡ (record_or_zero (lookup fp records)).trusted
  pub same_block : r.blocked ≡ (record_or_zero (lookup fp records)).blocked
  pub has_key : r.public_key ≡ crypto.encode_base64 key
  pub has_alias : contains_alias r.aliases alias ≡ true
  pub stored : lookup fp n ≡ some r
  pub others_kept : (other : Text) → other ≢ fp → lookup other n ≡ lookup other records
  pub warns : (other : Text) → Listed other reused ↔ Shares fp alias (lookup other records) other

-- An observation that is taken records the key and the alias without a change of trust or block (a
-- new key is neither trusted nor blocked), leaves the other records alone, and reports exactly the
-- other keys that have been seen with the same alias.
pub observe-Observed :
    (crypto : Crypto) (server_url address key : Text) (records n : Records) (r : TrustRecord)
    (reused : List Text)
    → IsDict records
    → observe crypto server_url address key records ≡ (n, found (r, reused))
    → Observed crypto
        (fingerprint crypto key)
        (record { server_url = server_url; address = address })
        key
        records
        n
        r
        reused
unfolding observe
observe-Observed crypto server_url address key records n r reused d h =
    let fp = fingerprint crypto key in
    let alias : Alias = record { server_url = server_url; address = address } in
    let old = record_or_zero (lookup fp records) in
    let new : TrustRecord = record old {
      fingerprint = fp;
      public_key = crypto.encode_base64 key;
      aliases = with_alias alias old.aliases;
    } in
    let same_record : new ≡ r = ground arith in
    let same_table : insert fp new records ≡ n = ground arith in
    let same_list : sort_texts (sharing fp alias records) ≡ reused = ground arith in
    rw (← same_record, ← same_table, ← same_list)
      (record {
        same_trust = refl;
        same_block = refl;
        has_key = refl;
        has_alias = with_alias-contains old.aliases alias;
        stored = lookup-insert_self fp new records;
        others_kept = λ other apart. lookup-insert_ne fp other new records (λ e. apart (sym e));
        warns = λ other. (
          λ l.
              sharing-Shares fp other alias records d
                ((Listed-sort other (sharing fp alias records)).0 l),
          λ s.
              (Listed-sort other (sharing fp alias records)).1
                (Shares-sharing fp other alias records s),
        );
      })
