-- ===== src/Examples/Guards.antt =====
-- The limiters, the duplicate filter, the replay guard and the registry on a few requests.
use go_cli_messenger.Common.{
  ℕ, ◌≡◌, ◌<◌, refl, true, false, List, [], ◌∷◌, arith, Text, codes, text_eq, lookup, insert,
  retain, length,
}
use go_cli_messenger.RateLimit.{Limiter, new_limiter, new_keyed, allow, allow_key}
use go_cli_messenger.RateLimit.Bound.{granted}
use go_cli_messenger.RateLimit.Keyed.{answers_for, answers_alone, answers_for-eq-alone}
use go_cli_messenger.Identity.Replay.{empty_guard, accept, max_seen, replay_key}
use go_cli_messenger.Identity.Replay.Single.{
  Request, serve, serve_all, empty_guard-Inv, replay_refused, replay_at_expiry,
}
use go_cli_messenger.Presence.{Endpoint}

abbrev ann : Text
ann = codes "ann"

abbrev bob : Text
bob = codes "bob"

-- Two invitations in a window of ten.
abbrev two_in_ten : Limiter
two_in_ten = new_limiter 2 10

two_of_three : granted two_in_ten (5 ∷ 6 ∷ 14 ∷ []) ≡ 2
unfolding granted allow new_limiter
two_of_three = refl

abbrev requests : List (Text × ℕ)
requests = (ann, 5) ∷ (bob, 6) ∷ (ann, 7) ∷ (ann, 8) ∷ (bob, 16) ∷ []

anns_answers : answers_for ann (new_keyed 2 10) requests ≡ true ∷ true ∷ false ∷ []
unfolding answers_for allow_key new_keyed text_eq lookup insert retain
anns_answers = refl

answers_for-eq-alone_example :
    answers_for ann (new_keyed 2 10) requests ≡ answers_alone ann (new_limiter 2 10) requests
answers_for-eq-alone_example = answers_for-eq-alone ann 2 10 1 requests (omega arith) (ground arith)

abbrev first : Request
first = record { fingerprint = ann; nonce = bob; expires_at = 100; now = 10 }

abbrev again : ℕ → Request
again t = record { fingerprint = ann; nonce = bob; expires_at = 200; now = t }

abbrev in_between : Request
in_between = record { fingerprint = bob; nonce = bob; expires_at = 30; now = 20 }

taken_at_first : (serve first empty_guard).1 ≡ true
unfolding serve accept empty_guard lookup retain
taken_at_first = refl

replay_refused_example :
    (serve (again 99) (serve_all (in_between ∷ []) (serve first empty_guard).0)).1 ≡ false
replay_refused_example =
    replay_refused first (again 99) (in_between ∷ []) empty_guard empty_guard-Inv refl refl
      taken_at_first (omega arith, tt) (omega arith)

room : length (serve_all (in_between ∷ []) (serve first empty_guard).0).seen < max_seen
unfolding serve_all serve accept empty_guard lookup retain insert text_eq replay_key
room = omega arith

replay_at_expiry_example :
    (serve (again 100) (serve_all (in_between ∷ []) (serve first empty_guard).0)).1 ≡ true
replay_at_expiry_example =
    replay_at_expiry first (again 100) (in_between ∷ []) empty_guard empty_guard-Inv refl refl
      taken_at_first (omega arith, tt) refl room

abbrev old_line : Endpoint
old_line = record { handle = 1; username = ann }

abbrev new_line : Endpoint
new_line = record { handle = 2; username = ann }
