-- ===== src/App/Inviting/Vouched.antt =====
-- When the sender of an invitation, or of an acceptance, is known by a proof.
use go_cli_messenger.Common.{
  ◌≡◌, ◌↔◌, refl, if_intro, true, ◌&&◌, ◌||◌, not, Text, text_eq, is_empty, lookup, arith,
}
use go_cli_messenger.Protocol.Message.{IdentityProof}
use go_cli_messenger.Protocol.Signal.{SignalMessage}
use go_cli_messenger.Identity.Proof.{Verification, refused, verified, verify, fingerprint}
use go_cli_messenger.Identity.Replay.{accept}
use go_cli_messenger.Identity.Trust.{TrustRecord, record_or_zero, observe}
use go_cli_messenger.App.Inviting.{
  Env, Keys, Observation, rejected, observed, recorded, observe_proof, verify_and_observe,
}

-- What is known of a key.
abbrev pub known : Env → Text → Keys → TrustRecord
known env key keys = record_or_zero (lookup (fingerprint env.crypto key) keys.records)

-- The message has a good proof by the key that was not used before, the trust store works, and it has
-- no other key with this fingerprint.
pub record Vouched (env : Env) (m : SignalMessage) (keys : Keys) (key : Text) : Type 0 where
  pub proof : IdentityProof
  pub signer : Text
  pub is_verified : verify env.crypto m env.now ≡ verified proof key signer
  pub is_fresh : (accept signer proof.nonce proof.expires_at env.later keys.replays).1 ≡ true
  pub store_works : env.opens && env.saves ≡ true
  pub same_key :
      is_empty (known env key keys).public_key
        || text_eq (known env key keys).public_key (env.crypto.encode_base64 key)
      ≡ true

-- The observation is one of the key.
abbrev pub Observes : Env → Keys → Text → Observation → Type 0
Observes env keys key rejected = ⊥
Observes env keys key (observed k r reused) = k ≡ key

module _ (env : Env) (m : SignalMessage) (keys : Keys) (key : Text) where
  -- The claims below, with what `verify` says as a variable.
  abbrev Works : IdentityProof → Text → Type 0
  Works p fp =
      ((accept fp p.nonce p.expires_at env.later keys.replays).1 ≡ true)
      × (env.opens && env.saves ≡ true)
      × (is_empty (known env key keys).public_key
            || text_eq (known env key keys).public_key (env.crypto.encode_base64 key)
          ≡ true)

  -- The keys once the proof has been counted as used.
  abbrev used : IdentityProof → Text → Keys
  used p fp = record keys { replays = (accept fp p.nonce p.expires_at env.later keys.replays).0 }

  abbrev Seen : Keys × Observation → Type 0
  Seen x = Observes env keys key x.1

  Works-of_observed :
      (p : IdentityProof) (k fp : Text)
      → Seen (observe_proof env m (verified p k fp) keys)
      → (k ≡ key) × Works p fp
  unfolding observe
  Works-of_observed p k fp =
      if_intro (λ x. Seen x → (k ≡ key) × Works p fp)
        (not (accept fp p.nonce p.expires_at env.later keys.replays).1 || not env.opens) _ _
        (λ _ h. absurd h)
        (λ fresh.
          if_intro (λ x. Seen (recorded env k (used p fp) x) → (k ≡ key) × Works p fp)
            (not (is_empty (known env k keys).public_key)
              && not (text_eq (known env k keys).public_key (env.crypto.encode_base64 k)))
            _ _ (λ _ h. absurd h)
            (λ same.
              if_intro (λ x. Observes env keys key x → (k ≡ key) × Works p fp) env.saves _ _
                (λ saves h. (h, (ground arith, ground arith, rw (← h) (ground arith))))
                (λ _ h. absurd h)))

  observed-of_Works :
      (p : IdentityProof) (fp : Text)
      → Works p fp
      → Seen (observe_proof env m (verified p key fp) keys)
  unfolding observe
  observed-of_Works p fp (fresh, works, same) =
      if_intro Seen (not (accept fp p.nonce p.expires_at env.later keys.replays).1 || not env.opens)
        _ _ (λ t. ground arith)
        (λ _.
          if_intro (λ x. Seen (recorded env key (used p fp) x))
            (not (is_empty (known env key keys).public_key)
              && not (text_eq (known env key keys).public_key (env.crypto.encode_base64 key)))
            _ _ (λ t. ground arith)
            (λ _. if_intro (Observes env keys key) env.saves _ _ (λ _. refl) (λ t. ground arith)))

  pub observed_iff : Seen (verify_and_observe env m keys) ↔ Vouched env m keys key
  unfolding verify_and_observe
  observed_iff = (
    from (verify env.crypto m env.now) refl,
    λ v.
        rw v.is_verified
          (observed-of_Works v.proof v.signer (v.is_fresh, v.store_works, v.same_key)),
  )
    where
      from :
          (v : Verification)
          → verify env.crypto m env.now ≡ v
          → Seen (observe_proof env m v keys)
          → Vouched env m keys key
      from (refused e) h s = absurd s
      from (verified p k fp) h s =
          let (same, works) = Works-of_observed p k fp s in
          let (fresh, stored, one_key) = works in
          record {
            proof = p;
            signer = fp;
            is_verified = rw (← same) h;
            is_fresh = fresh;
            store_works = stored;
            same_key = one_key;
          }

-- What is observed of a key is blocked as it was known.
abbrev pub KeepsBlock : Env → Keys → Observation → Type 0
KeepsBlock env keys rejected = Unit
KeepsBlock env keys (observed key r reused) = r.blocked ≡ (known env key keys).blocked

pub observed-KeepsBlock :
    (env : Env) (m : SignalMessage) (keys : Keys)
    → KeepsBlock env keys (verify_and_observe env m keys).1
unfolding verify_and_observe observe
observed-KeepsBlock env m keys = by_proof (verify env.crypto m env.now)
  where
    by_proof : (v : Verification) → KeepsBlock env keys (observe_proof env m v keys).1
    by_proof (refused e) = tt
    by_proof (verified p k fp) =
        if_intro Kept
          (not (accept fp p.nonce p.expires_at env.later keys.replays).1 || not env.opens) _ _
          (λ _. tt)
          (λ _.
            if_intro (λ x. Kept (recorded env k (used env m keys k p fp) x))
              (not (is_empty (known env k keys).public_key)
                && not (text_eq (known env k keys).public_key (env.crypto.encode_base64 k)))
              _ _ (λ _. tt)
              (λ _. if_intro (KeepsBlock env keys) env.saves _ _ (λ _. refl) (λ _. tt)))
      where
        Kept : Keys × Observation → Type 0
        Kept x = KeepsBlock env keys x.1
