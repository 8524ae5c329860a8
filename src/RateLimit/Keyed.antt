-- ===== src/RateLimit/Keyed.antt =====
-- The keyed limiter against one plain limiter for each key.
use go_cli_messenger.Common.{
  ℕ, ◌+◌, ◌≤◌, ◌<◌, ◌≡◌, ◌≢◌, refl, inl, inr, Bool, true, List, [], ◌∷◌, arith, if◌then◌else◌, Text,
  text_eq, lookup, retain, Option, none, some, IsDict, retain-IsDict, insert-IsDict, lookup-retain,
  lookup-insert, keep_some, text_eq_iff, text_eq_refl, leb, Bool-cases,
}
use go_cli_messenger.RateLimit.{
  Limiter, new_limiter, allow, is_stale, KeyedLimiter, WindowCounter, allow_key, new_keyed,
  is_current, counter_or_zero, started,
}

-- The plain limiter has the key's counter, or is stale where the key has none.
abbrev Agrees : ℕ → Option WindowCounter → Limiter → Type 0
Agrees now none s = is_stale now s ≡ true
Agrees now (some c) s = (c.start ≡ s.start) × (c.count ≡ s.count) × (0 < c.start)

record Simulates (now : ℕ) (key : Text) (l : KeyedLimiter) (s : Limiter) : Type 0 where
  same_limit : l.limit ≡ s.limit
  same_window : l.window ≡ s.window
  keyed : IsDict l.counters
  agrees : Agrees now (lookup key l.counters) s

abbrev counted : ℕ → WindowCounter → WindowCounter
counted limit c = if leb limit c.count then c else record c { count = c.count + 1 }

-- What a request leaves in the table for each key.
allow_key-lookup :
    (key j : Text) (t : ℕ) (l : KeyedLimiter)
    → IsDict l.counters
    → lookup j (allow_key key t l).0.counters ≡ (
        if text_eq key j
        then some (
            counted l.limit (
              started t
                (counter_or_zero (keep_some (is_current l.window t) (lookup key l.counters)))))
        else keep_some (is_current l.window t) (lookup j l.counters))
unfolding allow_key
allow_key-lookup key j t l d =
    let swept = retain (is_current l.window t) l.counters in
    let c = started t (counter_or_zero (lookup key swept)) in
    rw
      (
        ← lookup-retain (is_current l.window t) key l.counters d,
        ← lookup-retain (is_current l.window t) j l.counters d,
      )
      (ground (
        arith,
        lookup-insert key j c swept,
        lookup-insert key j (record c { count = c.count + 1 }) swept,
      ))

allow_key-IsDict :
    (key : Text) (t : ℕ) (l : KeyedLimiter)
    → IsDict l.counters
    → IsDict (allow_key key t l).0.counters
unfolding allow_key
allow_key-IsDict key t l d =
    let swept = retain (is_current l.window t) l.counters in
    let c = started t (counter_or_zero (lookup key swept)) in
    ground (
      arith,
      insert-IsDict key c swept (retain-IsDict _ l.counters d),
      insert-IsDict key (record c { count = c.count + 1 }) swept (retain-IsDict _ l.counters d),
    )

module _ (now t : ℕ) (key : Text) (l : KeyedLimiter) (s : Limiter) (later : now ≤ t)
    (started_clock : 0 < t) (sim : Simulates now key l s) where
  swept_lookup :
      (j : Text)
      → lookup j (retain (is_current l.window t) l.counters)
        ≡ keep_some (is_current l.window t) (lookup j l.counters)
  swept_lookup j = lookup-retain (is_current l.window t) j l.counters sim.keyed

  allow_key-answer :
      (o : Option WindowCounter)
      → lookup key l.counters ≡ o
      → Agrees now o s
      → (allow_key key t l).1 ≡ (allow t s).1
  unfolding allow_key allow
  allow_key-answer none e a = ground (arith, swept_lookup key, sim.same_limit, sim.same_window)
  allow_key-answer (some c) e a = ground (arith, swept_lookup key, sim.same_limit, sim.same_window)

  allow_key-Agrees :
      (o : Option WindowCounter)
      → lookup key l.counters ≡ o
      → Agrees now o s
      → Agrees t
          (some
            (counted l.limit (started t (counter_or_zero (keep_some (is_current l.window t) o)))))
          (allow t s).0
  unfolding allow
  allow_key-Agrees none e a = ground (arith, sim.same_limit, sim.same_window)
  allow_key-Agrees (some c) e a = ground (arith, sim.same_limit, sim.same_window)

  own-Simulates : Simulates t key (allow_key key t l).0 (allow t s).0
  own-Simulates = record {
    same_limit = unfold allow_key allow in ground (arith, sim.same_limit);
    same_window = unfold allow_key allow in ground (arith, sim.same_window);
    keyed = allow_key-IsDict key t l sim.keyed;
    agrees =
        rw (allow_key-lookup key key t l sim.keyed, text_eq_refl key)
          (allow_key-Agrees (lookup key l.counters) refl sim.agrees);
  }

  kept-Agrees :
      (o : Option WindowCounter) → Agrees now o s → Agrees t (keep_some (is_current l.window t) o) s
  kept-Agrees none a = ground arith
  kept-Agrees (some c) a = ground (arith, sim.same_window)

  other-Simulates : (j : Text) → j ≢ key → Simulates t key (allow_key j t l).0 s
  other-Simulates j h = record {
    same_limit = unfold allow_key in ground (arith, sim.same_limit);
    same_window = unfold allow_key in ground (arith, sim.same_window);
    keyed = allow_key-IsDict j t l sim.keyed;
    agrees =
        rw (allow_key-lookup j key t l sim.keyed)
          (ground (arith, text_eq_iff j key, kept-Agrees (lookup key l.counters) sim.agrees));
  }

-- The answers that one key's requests get in a history of everybody's.
unfoldable pub answers_for : Text → KeyedLimiter → List (Text × ℕ) → List Bool
answers_for key l [] = []
answers_for key l ((j, t) ∷ rest) =
    let (l', ok) = allow_key j t l in
    if text_eq j key then ok ∷ answers_for key l' rest else answers_for key l' rest

-- The answers of a plain limiter to that key's requests alone.
pub answers_alone : Text → Limiter → List (Text × ℕ) → List Bool
answers_alone key s [] = []
answers_alone key s ((j, t) ∷ rest) =
    if text_eq j key
    then (let (s', ok) = allow t s in ok ∷ answers_alone key s' rest)
    else answers_alone key s rest

-- The clock does not run backwards.
abbrev pub Ordered : ℕ → List (Text × ℕ) → Type 0
Ordered now [] = Unit
Ordered now ((j, t) ∷ rest) = (now ≤ t) × Ordered t rest

answers-Simulates :
    (key : Text) (now : ℕ) (l : KeyedLimiter) (s : Limiter) (requests : List (Text × ℕ))
    → 0 < now
    → Ordered now requests
    → Simulates now key l s
    → answers_for key l requests ≡ answers_alone key s requests
unfolding answers_for answers_alone
answers-Simulates key now l s [] p o sim = refl
answers-Simulates key now l s ((j, t) ∷ rest) p o sim = elim (Bool-cases (text_eq j key)) [
  | inl same ↦
      rw (same, (text_eq_iff j key).0 same)
        (cc (
          allow_key-answer now t key l s o.0 (omega arith) sim (lookup key l.counters) refl
              sim.agrees,
          answers-Simulates key t (allow_key key t l).0 (allow t s).0 rest (omega arith) o.1
              (own-Simulates now t key l s o.0 (omega arith) sim),
        ))
  | inr apart ↦ rw apart (
      answers-Simulates key t _ s rest (omega arith) o.1 (
        other-Simulates now t key l s o.0 (omega arith) sim j
          (λ e. ground (arith, text_eq_iff j key))))
]

-- The keyed limiter keeps the users apart: whatever the others do, a user gets the answers of a
-- limiter of his own, as long as the clock has started and does not run backwards.
pub answers_for-eq-alone :
    (key : Text) (limit window now : ℕ) (requests : List (Text × ℕ))
    → 0 < now
    → Ordered now requests
    → answers_for key (new_keyed limit window) requests
      ≡ answers_alone key (new_limiter limit window) requests
answers_for-eq-alone key limit window now requests p o =
    answers-Simulates key now _ _ requests p o (
      unfold new_keyed new_limiter lookup in
      record { same_limit = refl; same_window = refl; keyed = tt; agrees = refl })
