-- ===== src/Identity/Replay.antt =====
-- `ReplayGuard` of internal/identity/trust.go: the nonces of the proofs that are still valid.
pub mod Single
use go_cli_messenger.Common.{
  ℕ, ◌≡◌, Bool, true, false, Option, List, [], ◌∷◌, ◌++◌, length, leb, ltb, is_some, if◌then◌else◌,
  Text, Dict, lookup, insert, retain,
}

abbrev pub max_seen : ℕ
max_seen = 65536

-- A nil map reads as an empty one.
pub record ReplayGuard : Type 0 where
  pub seen : Dict ℕ

unfoldable pub empty_guard : ReplayGuard
empty_guard = record { seen = [] }

-- `fingerprint + "\x00" + nonce`
unfoldable pub replay_key : Text → Text → Text
replay_key fingerprint nonce = fingerprint ++ 0 ∷ nonce

-- `expiry.After(now)`
abbrev pub is_unexpired : ℕ → ℕ → Bool
is_unexpired now expiry = ltb now expiry

abbrev admit : Text → ℕ → ReplayGuard → ReplayGuard × Bool
admit key expires_at g =
    if is_some (lookup key g.seen)
    then (g, false)
    else if leb max_seen (length g.seen)
    then (g, false)
    else (record { seen = insert key expires_at g.seen }, true)

unfoldable pub accept : Text → Text → ℕ → ℕ → ReplayGuard → ReplayGuard × Bool
accept fingerprint nonce expires_at now g =
    admit (replay_key fingerprint nonce) expires_at
      (record { seen = retain (is_unexpired now) g.seen })
