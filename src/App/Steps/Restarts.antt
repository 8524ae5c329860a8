-- ===== src/App/Steps/Restarts.antt =====
-- When a session asks for a fresh route.
use go_cli_messenger.Common.{
  ℕ, ◌+◌, ◌≤◌, ◌≡◌, refl, if_intro, Bool, true, false, ◌&&◌, ◌||◌, not, ◌==◌, leb, Option, none,
  some, List, [], ◌∷◌, ◌++◌, arith,
}
use go_cli_messenger.App.Session
use go_cli_messenger.App.Session.{Session, Action, Reason, Outcome, Event}
use go_cli_messenger.App.Steps.{handle, is_ready, after, run_session, is_caller}

unfoldable pub restarts : List Action → ℕ
restarts [] = 0
restarts (Session.restart_ice ∷ did) = restarts did + 1
restarts (a ∷ did) = restarts did

restarts-append : (did more : List Action) → restarts (did ++ more) ≡ restarts did + restarts more
unfolding restarts
restarts-append [] more = ground arith
restarts-append (Session.restart_ice ∷ did) more = ground (arith, restarts-append did more)
restarts-append (a ∷ did) more = restarts-append did more

-- How often the connection comes up.
abbrev comes_up : Event → ℕ
comes_up (Session.connection Session.connected route works) = 1
comes_up e = 0

unfoldable pub connects : List Event → ℕ
connects [] = 0
connects (e ∷ es) = comes_up e + connects es

abbrev pub count : Bool → ℕ
count true = 1
count false = 0

-- What a step does to the restarts: none by a callee, and none after one until the connection is up.
abbrev is_spare : Event → Session → Session → List Action → Bool
is_spare e s t did =
    leb (restarts did + count s.restart_attempted) (count t.restart_attempted + comes_up e)
    && (is_caller s.role || restarts did == 0 && not (is_caller t.role))

abbrev is_sparing : Event → Session → Outcome → Bool
is_sparing e s (Session.goes t did) = is_spare e s t did
is_sparing e s (Session.stops t did r) = is_spare e s t did

handle-is_sparing : (e : Event) (s : Session) → is_sparing e s (handle e s) ≡ true
unfolding handle restarts
handle-is_sparing (Session.server call_id (Session.peer_signal (some p)) works) s = ground arith
handle-is_sparing (Session.control (Session.remote_hello (some h)) works opened) s = ground arith
handle-is_sparing (Session.control (Session.remote_chat (some text)) works opened) s = ground arith
handle-is_sparing (Session.control (Session.remote_audio (some m)) works opened) s = ground arith
handle-is_sparing (Session.connection Session.other route works) s = ground arith
handle-is_sparing (Session.video_packet Session.invalid) s = ground arith
handle-is_sparing (Session.camera_frame none) s = ground arith
handle-is_sparing e s = ground arith

abbrev Spare : ℕ → Session → List Action × Session × Option Reason → Type 0
Spare ups s (did, t, r) =
    (restarts did + count s.restart_attempted ≤ count t.restart_attempted + ups)
    × (is_caller s.role ≡ false → restarts did ≡ 0)

after-Spare :
    (e : Event) (s : Session) (o : Outcome) (ups : ℕ)
    (rest : Session → List Action × Session × Option Reason)
    → is_sparing e s o ≡ true
    → ((t : Session) → Spare ups t (rest t))
    → Spare (comes_up e + ups) s (after o rest)
after-Spare e s (Session.goes t did) ups rest f h =
    let (bound, none_by) = h t in
    (
      ground (arith, restarts-append did (rest t).0, bound),
      λ c. ground (arith, restarts-append did (rest t).0, none_by),
    )
after-Spare e s (Session.stops t did r) ups rest f h = (ground arith, λ c. ground arith)

run_session-Spare : (es : List Event) (s : Session) → Spare (connects es) s (run_session es s)
unfolding run_session connects
run_session-Spare [] s = (unfold restarts in omega arith, λ c. unfold restarts in refl)
run_session-Spare (e ∷ es) s =
    if_intro (Spare (comes_up e + connects es) s) (is_ready e s) _ _
      (λ _.
        after-Spare e s (handle e s) (connects es) (run_session es) (handle-is_sparing e s)
          (run_session-Spare es))
      (λ _. let (bound, none_by) = run_session-Spare es s in (omega (arith, bound), none_by))

-- A session restarts ICE at most once for each time that the connection has come up, and once more;
-- a callee never does.
pub run_session-restarts :
    (es : List Event) (s : Session)
    → (restarts (run_session es s).0 ≤ connects es + 1)
      × (is_caller s.role ≡ false → restarts (run_session es s).0 ≡ 0)
run_session-restarts es s =
    let (bound, none_by) = run_session-Spare es s in (ground (arith, bound), none_by)
