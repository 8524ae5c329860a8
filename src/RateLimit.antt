-- ===== src/RateLimit.antt =====
-- internal/server/websocket/ratelimit.go: the fixed-window limiters of call invitations, one for a
-- connection and one keyed by user. Time counts nanoseconds from Go's zero time; the window is a
-- positive duration, which the server's defaults make sure of.
pub mod Bound
pub mod Keyed
use go_cli_messenger.Common.{
  ℕ, ◌+◌, ◌≡◌, Bool, true, false, ◌||◌, not, Option, none, some, leb, ltb, ◌==◌, if◌then◌else◌,
  Text, Dict, lookup, insert, retain, [],
}

pub record Limiter : Type 0 where
  pub limit : ℕ
  pub window : ℕ
  pub start : ℕ
  pub count : ℕ

unfoldable pub new_limiter : ℕ → ℕ → Limiter
new_limiter limit window = record { limit = limit; window = window; start = 0; count = 0 }

-- `l.start.IsZero() || !now.Before(l.start.Add(l.window))`
abbrev pub is_stale : ℕ → Limiter → Bool
is_stale now l = l.start == 0 || not (ltb now (l.start + l.window))

abbrev roll : ℕ → Limiter → Limiter
roll now l = if is_stale now l then record l { start = now; count = 0 } else l

abbrev take_one : Limiter → Limiter × Bool
take_one l = if leb l.limit l.count then (l, false) else (record l { count = l.count + 1 }, true)

unfoldable pub allow : ℕ → Limiter → Limiter × Bool
allow now l = take_one (roll now l)

pub record WindowCounter : Type 0 where
  pub start : ℕ
  pub count : ℕ

pub record KeyedLimiter : Type 0 where
  pub limit : ℕ
  pub window : ℕ
  pub counters : Dict WindowCounter

unfoldable pub new_keyed : ℕ → ℕ → KeyedLimiter
new_keyed limit window = record { limit = limit; window = window; counters = [] }

abbrev pub is_current : ℕ → ℕ → WindowCounter → Bool
is_current window now c = ltb now (c.start + window)

-- `l.counters[key]`, whose missing value is the zero counter
abbrev pub counter_or_zero : Option WindowCounter → WindowCounter
counter_or_zero none = record { start = 0; count = 0 }
counter_or_zero (some c) = c

abbrev started : ℕ → WindowCounter → WindowCounter
started now c = if c.start == 0 then record c { start = now } else c

abbrev count_one : Text → WindowCounter → KeyedLimiter → KeyedLimiter × Bool
count_one key c l =
    if leb l.limit c.count
    then (record l { counters = insert key c l.counters }, false)
    else (record l { counters = insert key (record c { count = c.count + 1 }) l.counters }, true)

unfoldable pub allow_key : Text → ℕ → KeyedLimiter → KeyedLimiter × Bool
allow_key key now l =
    let swept : KeyedLimiter = record l {
      counters = retain (is_current l.window now) l.counters;
    } in
    count_one key (started now (counter_or_zero (lookup key swept.counters))) swept
