-- ===== src/Peer/Queue/Latest.antt =====
-- What the reader of a real-time queue gets.
use mathlib.Core.List.{append_assoc, append-nil}
use go_cli_messenger.Common.{
  ℕ, ◌≤◌, ◌<◌, ◌≡◌, refl, sym, ap, ◌∙◌, subst, if_intro, Bool, true, ltb, Option, none, some, List,
  [], ◌∷◌, ◌++◌, length, length-append, length-drop, drop, arith,
}
use go_cli_messenger.Peer.Queue.{queue_latest}

pub data Op {ℓ} (A : Type ℓ) : Type ℓ where
  put : A → Op A
  take_one : Op A

pub record Stream {ℓ} (A : Type ℓ) : Type ℓ where
  pub queue : List A
  pub taken : List A

module _ {ℓ} {A : Type ℓ} where
  -- The reader takes the head of the queue, if there is one.
  abbrev pub take_head : List A → Stream A → Stream A
  take_head [] s = s
  take_head (x ∷ q) s = record { queue = q; taken = s.taken ++ x ∷ [] }

  unfoldable pub step : ℕ → Op A → Stream A → Stream A
  unfolding queue_latest
  step capacity (put v) s = record s { queue = (queue_latest capacity v s.queue).0 }
  step capacity take_one s = take_head s.queue s

  unfoldable pub run : ℕ → List (Op A) → Stream A → Stream A
  unfolding step
  run capacity [] s = s
  run capacity (o ∷ ops) s = run capacity ops (step capacity o s)

  -- What was put, in order.
  unfoldable pub puts : List (Op A) → List A
  puts [] = []
  puts (put v ∷ ops) = v ∷ puts ops
  puts (take_one ∷ ops) = puts ops

  -- The first list is the second with some items left out.
  pub data Thinned : List A → List A → Type ℓ where
    nil : Thinned [] []
    keep : {xs ys : List A} (x : A) → Thinned xs ys → Thinned (x ∷ xs) (x ∷ ys)
    skip : {xs ys : List A} (x : A) → Thinned xs ys → Thinned xs (x ∷ ys)

  unfoldable pub last : List A → Option A
  last [] = none
  last (x ∷ []) = some x
  last (x ∷ y ∷ xs) = last (y ∷ xs)

  last-snoc : (xs : List A) (v : A) → last (xs ++ v ∷ []) ≡ some v
  unfolding last
  last-snoc [] v = refl
  last-snoc (x ∷ []) v = refl
  last-snoc (x ∷ y ∷ xs) v = last-snoc (y ∷ xs) v

  Thinned-snoc : {xs ys : List A} (v : A) → Thinned xs ys → Thinned (xs ++ v ∷ []) (ys ++ v ∷ [])
  Thinned-snoc v nil = keep v nil
  Thinned-snoc v (keep x t) = keep x (Thinned-snoc v t)
  Thinned-snoc v (skip x t) = skip x (Thinned-snoc v t)

  without :
      (front : List A) (x : A) (behind : List A) {xs ys : List A}
      → Thinned xs ys
      → xs ≡ front ++ x ∷ behind
      → Thinned (front ++ behind) ys
  without [] x behind nil e = absurd (cc)
  without [] x behind (keep {xs} {ys} y t) e =
      let same : xs ≡ behind = cc in skip y (subst (λ l. Thinned l ys) same t)
  without [] x behind (skip y t) e = skip y (without [] x behind t e)
  without (a ∷ front) x behind nil e = absurd (cc)
  without (a ∷ front) x behind (keep {xs} {ys} y t) e =
      let same : y ≡ a = cc in
      subst (λ b. Thinned (b ∷ front ++ behind) (y ∷ ys)) same
        (keep y (without front x behind {xs = xs} {ys = ys} t (cc)))
  without (a ∷ front) x behind (skip y t) e = skip y (without (a ∷ front) x behind t e)

  -- One item less.
  Thinned-without :
      (front : List A) (x : A) (behind ys : List A)
      → Thinned (front ++ x ∷ behind) ys
      → Thinned (front ++ behind) ys
  Thinned-without front x behind ys t = without front x behind t refl

  pub record Inv (capacity : ℕ) (items : List A) (s : Stream A) : Type ℓ where
    pub in_order : Thinned (s.taken ++ s.queue) items
    pub bounded : length s.queue ≤ capacity
    pub newest : last (s.taken ++ s.queue) ≡ last items

  put-Inv :
      (capacity : ℕ) (items q : List A) (s : Stream A) (v : A)
      → 0 < capacity
      → Inv capacity items s
      → s.queue ≡ q
      → Inv capacity (items ++ v ∷ []) (record s { queue = (queue_latest capacity v q).0 })
  unfolding queue_latest
  put-Inv capacity items q s v pos i e =
      if_intro (λ (x : List A × Bool). Inv capacity (items ++ v ∷ []) (record s { queue = x.0 }))
        (ltb (length q) capacity) _ _
        (λ room. behind q room (subst (λ l. Thinned (s.taken ++ l) items) e i.in_order))
        (λ full.
          if_intro
            (λ (x : List A × Bool). Inv capacity (items ++ v ∷ []) (record s { queue = x.0 }))
            (ltb (length (drop 1 q)) capacity) _ _
            (λ room.
              behind (drop 1 q) room
                (dropped q (subst (λ l. Thinned (s.taken ++ l) items) e i.in_order)))
            (λ never. absurd (ground (arith, length-drop 1 q, ap length e))))
    where
      behind :
          (l : List A)
          → ltb (length l) capacity ≡ true
          → Thinned (s.taken ++ l) items
          → Inv capacity (items ++ v ∷ []) (record s { queue = l ++ v ∷ [] })
      behind l room t = record {
        in_order =
            subst (λ k. Thinned k (items ++ v ∷ [])) (append_assoc s.taken l (v ∷ []))
              (Thinned-snoc v t);
        bounded = ground (arith, length-append l (v ∷ []));
        newest =
            ap last (sym (append_assoc s.taken l (v ∷ [])))
            ∙ last-snoc (s.taken ++ l) v
            ∙ sym (last-snoc items v);
      }

      dropped : (l : List A) → Thinned (s.taken ++ l) items → Thinned (s.taken ++ drop 1 l) items
      dropped [] t = t
      dropped (x ∷ l) t = Thinned-without s.taken x l items t

  take_head-Inv :
      (capacity : ℕ) (items q : List A) (s : Stream A)
      → Inv capacity items s
      → s.queue ≡ q
      → Inv capacity items (take_head q s)
  take_head-Inv capacity items [] s i e = i
  take_head-Inv capacity items (x ∷ q) s i e = record {
    in_order = subst (λ k. Thinned k items) moved i.in_order;
    bounded = omega (arith, ap length e, i.bounded);
    newest = ap last (sym moved) ∙ i.newest;
  }
    where
      moved : s.taken ++ s.queue ≡ (s.taken ++ x ∷ []) ++ q
      moved = rw e (sym (append_assoc s.taken (x ∷ []) q))

  run-Inv :
      (capacity : ℕ) (items : List A) (ops : List (Op A)) (s : Stream A)
      → 0 < capacity
      → Inv capacity items s
      → Inv capacity (items ++ puts ops) (run capacity ops s)
  unfolding run step puts
  run-Inv capacity items [] s pos i = rw (append-nil items) i
  run-Inv capacity items (put v ∷ ops) s pos i =
      subst (λ k. Inv capacity k (run capacity ops (step capacity (put v) s)))
        (append_assoc items (v ∷ []) (puts ops))
        (run-Inv capacity (items ++ v ∷ []) ops _ pos
          (put-Inv capacity items s.queue s v pos i refl))
  run-Inv capacity items (take_one ∷ ops) s pos i =
      run-Inv capacity items ops _ pos (take_head-Inv capacity items s.queue s i refl)

  -- Whatever the order of writes and reads, the reader gets items in the order they were put, none of
  -- them twice; no more than the capacity wait; and the newest item is never the one that is lost.
  pub run_latest :
      (capacity : ℕ) (ops : List (Op A))
      → 0 < capacity
      → Inv capacity (puts ops) (run capacity ops (record { queue = []; taken = [] }))
  run_latest capacity ops pos =
      run-Inv capacity [] ops _ pos
        (record { in_order = nil; bounded = omega arith; newest = refl })
