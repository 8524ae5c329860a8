-- ===== src/Daemon/Reconnect.antt =====
-- `Run` of internal/client/daemon/daemon.go: how long the daemon waits before it connects again. Times
-- are in nanoseconds.
use Prim.Native.Nat.{◌*◌, min}
use go_cli_messenger.Common.{
  ℕ, ℤ, pos, negsuc, zero, suc, ◌≤◌, ◌≡◌, refl, ap, ◌∙◌, if_intro, Bool, true, false, ◌&&◌, not,
  leb, ltb, if◌then◌else◌, List, [], ◌∷◌, arith, positive_or,
}

pub record Delays : Type 0 where
  pub reconnect_min : ℕ
  pub reconnect_max : ℕ
  pub stable_connection : ℕ

-- `if config.ReconnectMax < config.ReconnectMin`
abbrev max_or_default : ℤ → ℕ → ℕ
max_or_default (pos n) low = if ltb n low then 30000000000 else n
max_or_default (negsuc n) low = 30000000000

unfoldable pub normalised : ℤ → ℤ → ℤ → Delays
normalised low high stable =
    let reconnect_min = positive_or low 1000000000 in
    record {
      reconnect_min = reconnect_min;
      reconnect_max = max_or_default high reconnect_min;
      stable_connection = positive_or stable 60000000000;
    }

-- What comes of an attempt to connect: it fails, or the connection lasts for some time.
pub data Attempt : Type 0 where
  failed : Attempt
  lasted : ℕ → Attempt

abbrev pub waits : Delays → Attempt → ℕ → ℕ
waits d failed backoff = backoff
waits d (lasted t) backoff = if leb d.stable_connection t then d.reconnect_min else backoff

-- The waits after these attempts, from a state of `backoff`.
unfoldable pub delays : Delays → ℕ → List Attempt → List ℕ
delays d backoff [] = []
delays d backoff (a ∷ attempts) =
    let w = waits d a backoff in w ∷ delays d (min (w * 2) d.reconnect_max) attempts

unfoldable pub reconnects : Delays → List Attempt → List ℕ
unfolding delays
reconnects d attempts = delays d d.reconnect_min attempts

abbrev pub is_short : Delays → Attempt → Bool
is_short d failed = true
is_short d (lasted t) = not (leb d.stable_connection t)

unfoldable pub doubled : ℕ → ℕ → ℕ
doubled zero n = n
doubled (suc k) n = 2 * doubled k n

-- The wait after k attempts without a stable connection.
abbrev pub grown : Delays → ℕ → ℕ
grown d k = min (doubled k d.reconnect_min) d.reconnect_max

-- The waits by the number of such attempts before.
unfoldable pub expected : Delays → ℕ → List Attempt → List ℕ
unfolding doubled
expected d k [] = []
expected d k (a ∷ attempts) =
    let next = expected d (suc k) attempts in
    let again = expected d 1 attempts in
    if is_short d a then grown d k ∷ next else grown d 0 ∷ again

unfoldable pub are_within : Delays → List ℕ → Bool
are_within d [] = true
are_within d (w ∷ ws) = leb d.reconnect_min w && leb w d.reconnect_max && are_within d ws

delays-expected :
    (d : Delays) (k : ℕ) (attempts : List Attempt)
    → d.reconnect_min ≤ d.reconnect_max
    → delays d (grown d k) attempts ≡ expected d k attempts
unfolding delays expected doubled
delays-expected d k [] order = refl
delays-expected d k (failed ∷ attempts) order =
    ap (λ ws. grown d k ∷ ws)
      (ap (λ b. delays d b attempts) (omega arith) ∙ delays-expected d (suc k) attempts order)
delays-expected d k (lasted t ∷ attempts) order =
    by_test (leb d.stable_connection t)
      (ap (λ b. delays d b attempts) (omega arith) ∙ delays-expected d (suc k) attempts order)
      (ap (λ b. delays d b attempts) (omega arith) ∙ delays-expected d 1 attempts order)
  where
    by_test :
        (stable : Bool)
        → delays d (min (grown d k * 2) d.reconnect_max) attempts ≡ expected d (suc k) attempts
        → delays d (min (d.reconnect_min * 2) d.reconnect_max) attempts ≡ expected d 1 attempts
        → (let w = if stable then d.reconnect_min else grown d k in
            w ∷ delays d (min (w * 2) d.reconnect_max) attempts)
          ≡ (if not stable
              then grown d k ∷ expected d (suc k) attempts
              else grown d 0 ∷ expected d 1 attempts)
    by_test true goes_on again = rw again (ap (λ w. w ∷ expected d 1 attempts) (omega arith))
    by_test false goes_on again = ap (λ ws. grown d k ∷ ws) goes_on

doubled-grows : (k n : ℕ) → n ≤ doubled k n
unfolding doubled
doubled-grows zero n = omega arith
doubled-grows (suc k) n = omega (arith, doubled-grows k n)

expected-are_within :
    (d : Delays) (k : ℕ) (attempts : List Attempt)
    → d.reconnect_min ≤ d.reconnect_max
    → are_within d (expected d k attempts) ≡ true
unfolding expected are_within
expected-are_within d k [] order = refl
expected-are_within d k (a ∷ attempts) order =
    if_intro (λ ws. are_within d ws ≡ true) (is_short d a) _ _
      (λ _.
        ground
          (arith, doubled-grows k d.reconnect_min, expected-are_within d (suc k) attempts order))
      (λ _. ground (arith, doubled-grows 0 d.reconnect_min, expected-are_within d 1 attempts order))

-- Where the longest wait is not below the shortest, the wait after k attempts in a row without a stable
-- connection is the shortest doubled k times, or the longest if that is less; after a stable
-- connection the waits start again; and all of them are between the two.
pub reconnects-expected :
    (d : Delays) (attempts : List Attempt)
    → d.reconnect_min ≤ d.reconnect_max
    → (reconnects d attempts ≡ expected d 0 attempts)
      × (are_within d (reconnects d attempts) ≡ true)
unfolding reconnects doubled
reconnects-expected d attempts order =
    let same : reconnects d attempts ≡ expected d 0 attempts =
      ap (λ b. delays d b attempts) (omega arith) ∙ delays-expected d 0 attempts order in
    (same, rw same (expected-are_within d 0 attempts order))
