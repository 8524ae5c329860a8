-- ===== src/Daemon/Invitations.antt =====
-- How many invitations of one caller come through: a sliding window.
use go_cli_messenger.Common.{
  ℕ, ◌≤◌, ◌<◌, ◌≡◌, refl, sym, ap, ◌∙◌, if_intro, Bool, ltb, leb, if◌then◌else◌, List, [], ◌∷◌,
  ◌++◌, length, length-append, Text, Dict, lookup, insert, lookup-insert_self, arith,
}
use go_cli_messenger.Daemon.Service.{Config, or_empty, recent, allow_invite}

module _ (c : Config) (caller : Text) where
  -- The invitations of a caller at these times: the limiter, and the times that were let through.
  unfoldable pub allow_all : List ℕ → Dict (List ℕ) × List ℕ → Dict (List ℕ) × List ℕ
  allow_all [] x = x
  allow_all (now ∷ times) (invites, allowed) =
      let (next, good) = allow_invite c caller now invites in
      allow_all times (next, if good then allowed ++ now ∷ [] else allowed)

  recent-append :
      (w now : ℕ) (xs ys : List ℕ) → recent w now (xs ++ ys) ≡ recent w now xs ++ recent w now ys
  unfolding recent
  recent-append w now [] ys = refl
  recent-append w now (x ∷ xs) ys = ground (arith, recent-append w now xs ys)

  -- What is old at a time stays old.
  recent-recent :
      (w before now : ℕ) (xs : List ℕ)
      → before ≤ now
      → recent w now (recent w before xs) ≡ recent w now xs
  unfolding recent
  recent-recent w before now [] h = refl
  recent-recent w before now (x ∷ xs) h = ground (arith, recent-recent w before now xs h)

  length-recent-le : (w now : ℕ) (xs : List ℕ) → length (recent w now xs) ≤ length xs
  unfolding recent
  length-recent-le w now [] = omega arith
  length-recent-le w now (x ∷ xs) = ground (arith, length-recent-le w now xs)

  -- The limiter knows the allowed times that are recent at the last request, at most the limit.
  record Inv (last : ℕ) (invites : Dict (List ℕ)) (allowed : List ℕ) : Type 0 where
    known : or_empty (lookup caller invites) ≡ recent c.invite_window last allowed
    bounded : length (recent c.invite_window last allowed) ≤ c.invite_limit

  allow_invite-Inv :
      (last now : ℕ) (invites : Dict (List ℕ)) (allowed : List ℕ)
      → last ≤ now
      → 0 < c.invite_window
      → Inv last invites allowed
      → Inv now
          (allow_invite c caller now invites).0
          (if (allow_invite c caller now invites).1 then allowed ++ now ∷ [] else allowed)
  unfolding allow_invite
  allow_invite-Inv last now invites allowed h w v =
      if_intro Next (leb c.invite_limit (length values)) _ _
        (λ full. record {
          known = stored values ∙ same;
          bounded = omega (arith, ap length same, short, v.bounded, ap length v.known);
        })
        (λ room. record {
          known = stored (values ++ now ∷ []) ∙ grown;
          bounded = ground (arith, ap length grown, length-append values (now ∷ []));
        })
    where
      values : List ℕ
      values = recent c.invite_window now (or_empty (lookup caller invites))

      Next : Dict (List ℕ) × Bool → Type 0
      Next x = Inv now x.0 (if x.1 then allowed ++ now ∷ [] else allowed)

      same : values ≡ recent c.invite_window now allowed
      same = rw v.known (recent-recent c.invite_window last now allowed h)

      short : length values ≤ length (or_empty (lookup caller invites))
      short = length-recent-le c.invite_window now (or_empty (lookup caller invites))

      stored : (l : List ℕ) → or_empty (lookup caller (insert caller l invites)) ≡ l
      stored l = rw (lookup-insert_self caller l invites) refl

      self : recent c.invite_window now (now ∷ []) ≡ now ∷ []
      self = unfold recent in ground arith

      grown : values ++ now ∷ [] ≡ recent c.invite_window now (allowed ++ now ∷ [])
      grown = rw same (
          sym (
            recent-append c.invite_window now allowed (now ∷ [])
            ∙ ap (◌++◌ (recent c.invite_window now allowed)) self))

  abbrev pub Ascending : ℕ → List ℕ → Type 0
  Ascending last [] = Unit
  Ascending last (now ∷ times) = (last ≤ now) × Ascending now times

  abbrev pub end : ℕ → List ℕ → ℕ
  end last [] = last
  end last (now ∷ times) = end now times

  allow_all-Inv :
      (times : List ℕ) (last : ℕ) (invites : Dict (List ℕ)) (allowed : List ℕ)
      → 0 < c.invite_window
      → Ascending last times
      → Inv last invites allowed
      → let (next, all) = allow_all times (invites, allowed) in Inv (end last times) next all
  unfolding allow_all
  allow_all-Inv [] last invites allowed w a v = v
  allow_all-Inv (now ∷ times) last invites allowed w (h, a) v =
      allow_all-Inv times now _ _ w a (allow_invite-Inv last now invites allowed h w v)

  answer :
      (times : List ℕ) (now : ℕ) (invites : Dict (List ℕ)) (allowed : List ℕ)
      → end 0 times ≤ now
      → Inv (end 0 times) invites allowed
      → (allow_invite c caller now invites).1
        ≡ ltb (length (recent c.invite_window now allowed)) c.invite_limit
  unfolding allow_invite
  answer times now invites allowed h v =
      if_intro
        (λ (x : Dict (List ℕ) × Bool).
          x.1 ≡ ltb (length (recent c.invite_window now allowed)) c.invite_limit)
        (leb c.invite_limit
          (length (recent c.invite_window now (or_empty (lookup caller invites)))))
        _ _ (λ full. ground (arith, ap length same)) (λ room. ground (arith, ap length same))
    where
      same :
          recent c.invite_window now (or_empty (lookup caller invites))
          ≡ recent c.invite_window now allowed
      same = rw v.known (recent-recent c.invite_window (end 0 times) now allowed h)

  -- An invitation comes through exactly when fewer than the limit of those of its caller that came
  -- through before lie within the window, so that there are never more of them in the window than
  -- the limit, as long as the clock does not run backwards.
  pub allow_invite_iff :
      (times : List ℕ) (now : ℕ)
      → 0 < c.invite_window
      → Ascending 0 times
      → end 0 times ≤ now
      → let (invites, allowed) = allow_all times ([], []) in
        let (next, good) = allow_invite c caller now invites in
        (good ≡ ltb (length (recent c.invite_window now allowed)) c.invite_limit)
        × (length (recent c.invite_window now (if good then allowed ++ now ∷ [] else allowed))
            ≤ c.invite_limit)
  allow_invite_iff times now w a h =
      let v =
        allow_all-Inv times 0 [] [] w a (record {
          known = unfold recent lookup in refl;
          bounded = unfold recent in omega arith;
        }) in
      (answer times now _ _ h v, (allow_invite-Inv (end 0 times) now _ _ h w v).bounded)
