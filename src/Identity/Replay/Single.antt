-- ===== src/Identity/Replay/Single.antt =====
-- How often a nonce is accepted, and how large the guard grows.
use go_cli_messenger.Common.{
  ℕ, ◌≤◌, ◌<◌, ◌≡◌, Bool, true, false, some, List, [], ◌∷◌, length, Text, text_eq_iff, text_eq_refl,
  IsDict, lookup, retain, lookup-insert, lookup-retain, retain-IsDict, insert-IsDict,
  length-insert-le, length-retain-le, arith, All,
}
use go_cli_messenger.Identity.Replay.{
  ReplayGuard, empty_guard, replay_key, accept, max_seen, is_unexpired,
}

pub record Inv (g : ReplayGuard) : Type 0 where
  pub keyed : IsDict g.seen
  pub bounded : length g.seen ≤ max_seen

pub empty_guard-Inv : Inv empty_guard
unfolding empty_guard
empty_guard-Inv = record { keyed = tt; bounded = omega arith }

-- The guard never holds a key twice nor more than 65536 keys.
pub accept-Inv :
    (fingerprint nonce : Text) (expires_at now : ℕ) (g : ReplayGuard)
    → Inv g
    → Inv (accept fingerprint nonce expires_at now g).0
unfolding accept
accept-Inv fingerprint nonce expires_at now g v =
    let kept = retain (is_unexpired now) g.seen in
    let key = replay_key fingerprint nonce in
    record {
      keyed = ground (
        arith,
        retain-IsDict (is_unexpired now) g.seen v.keyed,
        insert-IsDict key expires_at kept (retain-IsDict (is_unexpired now) g.seen v.keyed),
      );
      bounded = ground (
        arith,
        length-retain-le (is_unexpired now) g.seen,
        length-insert-le key expires_at kept,
        v.bounded,
      );
    }

-- One request to the guard: fingerprint, nonce, expiry and time.
pub record Request : Type 0 where
  pub fingerprint : Text
  pub nonce : Text
  pub expires_at : ℕ
  pub now : ℕ

unfoldable pub serve : Request → ReplayGuard → ReplayGuard × Bool
serve r g = accept r.fingerprint r.nonce r.expires_at r.now g

unfoldable pub serve_all : List Request → ReplayGuard → ReplayGuard
serve_all [] g = g
serve_all (r ∷ rs) g = serve_all rs (serve r g).0

serve-Inv : (r : Request) (g : ReplayGuard) → Inv g → Inv (serve r g).0
unfolding serve
serve-Inv r g v = accept-Inv r.fingerprint r.nonce r.expires_at r.now g v

-- A key that is held and has not expired stays, with its expiry.
serve_keeps :
    (key : Text) (expiry : ℕ) (r : Request) (g : ReplayGuard)
    → Inv g
    → lookup key g.seen ≡ some expiry
    → r.now < expiry
    → lookup key (serve r g).0.seen ≡ some expiry
unfolding serve accept
serve_keeps key expiry r g v h l =
    let kept = retain (is_unexpired r.now) g.seen in
    let k = replay_key r.fingerprint r.nonce in
    ground (
      arith,
      lookup-retain (is_unexpired r.now) key g.seen v.keyed,
      lookup-insert k key r.expires_at kept,
      text_eq_iff k key,
    )

serve_all_keeps :
    (key : Text) (expiry : ℕ) (rs : List Request) (g : ReplayGuard)
    → Inv g
    → lookup key g.seen ≡ some expiry
    → All (λ r. r.now < expiry) rs
    → lookup key (serve_all rs g).seen ≡ some expiry
unfolding serve_all
serve_all_keeps key expiry [] g v h l = h
serve_all_keeps key expiry (r ∷ rs) g v h l =
    serve_all_keeps key expiry rs (serve r g).0 (serve-Inv r g v)
      (serve_keeps key expiry r g v h l.0) l.1

serve_all-Inv : (rs : List Request) (g : ReplayGuard) → Inv g → Inv (serve_all rs g)
unfolding serve_all
serve_all-Inv [] g v = v
serve_all-Inv (r ∷ rs) g v = serve_all-Inv rs (serve r g).0 (serve-Inv r g v)

accepted_held :
    (r : Request) (g : ReplayGuard)
    → (serve r g).1 ≡ true
    → lookup (replay_key r.fingerprint r.nonce) (serve r g).0.seen ≡ some r.expires_at
unfolding serve accept
accepted_held r g h =
    let k = replay_key r.fingerprint r.nonce in
    ground
      (arith, lookup-insert k k r.expires_at (retain (is_unexpired r.now) g.seen), text_eq_refl k)

module _ (r : Request) (e : ℕ) (g : ReplayGuard) (v : Inv g)
    (held : lookup (replay_key r.fingerprint r.nonce) g.seen ≡ some e) where
  serve_held : r.now < e → (serve r g).1 ≡ false
  unfolding serve accept
  serve_held h =
      ground (
        arith,
        lookup-retain (is_unexpired r.now) (replay_key r.fingerprint r.nonce) g.seen v.keyed,
      )

  serve_expired : e ≤ r.now → length g.seen < max_seen → (serve r g).1 ≡ true
  unfolding serve accept
  serve_expired h room = ground (
    arith,
    lookup-retain (is_unexpired r.now) (replay_key r.fingerprint r.nonce) g.seen v.keyed,
    length-retain-le (is_unexpired r.now) g.seen,
  )

module _ (r again : Request) (rs : List Request) (g : ReplayGuard) (v : Inv g)
    (same_fingerprint : again.fingerprint ≡ r.fingerprint) (same_nonce : again.nonce ≡ r.nonce)
    (accepted : (serve r g).1 ≡ true) (in_time : All (λ q. q.now < r.expires_at) rs) where
  later_Inv : Inv (serve_all rs (serve r g).0)
  later_Inv = serve_all-Inv rs (serve r g).0 (serve-Inv r g v)

  still_held :
      lookup (replay_key again.fingerprint again.nonce) (serve_all rs (serve r g).0).seen
      ≡ some r.expires_at
  still_held =
      rw (same_fingerprint, same_nonce)
        (serve_all_keeps (replay_key r.fingerprint r.nonce) r.expires_at rs (serve r g).0
          (serve-Inv r g v) (accepted_held r g accepted) in_time)

  -- A proof that was accepted is refused when its fingerprint and nonce come again at any time
  -- before its expiry, whatever requests come in between before that time, and whatever expiry the
  -- second one claims.
  pub replay_refused :
      again.now < r.expires_at → (serve again (serve_all rs (serve r g).0)).1 ≡ false
  replay_refused h =
      serve_held again r.expires_at (serve_all rs (serve r g).0) later_Inv still_held h

  -- At the very instant of its expiry the guard has forgotten a proof that it accepted: when the
  -- fingerprint and nonce come again then, they are accepted, unless 65536 proofs are held.
  pub replay_at_expiry :
      again.now ≡ r.expires_at
      → length (serve_all rs (serve r g).0).seen < max_seen
      → (serve again (serve_all rs (serve r g).0)).1 ≡ true
  replay_at_expiry h room =
      serve_expired again r.expires_at (serve_all rs (serve r g).0) later_Inv still_held
        (omega arith) room
