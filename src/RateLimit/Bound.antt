-- ===== src/RateLimit/Bound.antt =====
-- How many invitations the limiters let through.
use go_cli_messenger.Common.{ℕ, ◌+◌, ◌≤◌, ◌<◌, ◌≡◌, true, List, [], ◌∷◌, arith, if◌then◌else◌}
use go_cli_messenger.RateLimit.{Limiter, allow, is_stale}

-- The requests at the given times, and how many of them the limiter lets through.
unfoldable pub granted : Limiter → List ℕ → ℕ
granted l [] = 0
granted l (now ∷ times) = let (l', ok) = allow now l in (if ok then 1 else 0) + granted l' times

-- Every time lies in one window that opens at `start`.
abbrev pub Within : ℕ → ℕ → List ℕ → Type 0
Within start window [] = Unit
Within start window (t ∷ ts) = (start ≤ t) × (t < start + window) × Within start window ts

granted_left :
    (l : Limiter) (times : List ℕ)
    → 0 < l.start
    → Within l.start l.window times
    → l.count ≤ l.limit
    → granted l times + l.count ≤ l.limit
unfolding granted allow
granted_left l [] p w c = omega arith
granted_left l (now ∷ times) p w c =
    ground (arith, granted_left l times, granted_left (record l { count = l.count + 1 }) times)

-- In the window that its first request opens, a limiter lets no more than its limit through, whatever requests come.
pub granted-le-limit :
    (l : Limiter) (first : ℕ) (times : List ℕ)
    → 0 < first
    → is_stale first l ≡ true
    → Within first l.window times
    → granted l (first ∷ times) ≤ l.limit
unfolding granted allow
granted-le-limit l first times p s w = ground (
  arith,
  granted_left (record l { start = first; count = 0 }) times,
  granted_left (record l { start = first; count = 1 }) times,
)
