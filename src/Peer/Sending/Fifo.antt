-- ===== src/Peer/Sending/Fifo.antt =====
-- The order of the control messages, and what a flush waits for.
use mathlib.Core.List.{append_assoc, append-nil}
use go_cli_messenger.Common.{
  ℕ, ◌≤◌, ◌≡◌, refl, sym, ap, ◌∙◌, if_intro, Bool, true, ◌&&◌, ◌||◌, not, ltb, Option, none, some,
  List, [], ◌∷◌, ◌++◌, length, length-append, Text, arith,
}
use go_cli_messenger.Peer.Sending.{
  Item, message, flush, SendResult, sent, Sender, start, queue_item, send_held, take_item, advance,
  send_loop,
}

unfoldable pub messages : List Item → List Text
messages [] = []
messages (message m ∷ is) = m ∷ messages is
messages (flush k ∷ is) = messages is

unfoldable pub flushes : List Item → List ℕ
flushes [] = []
flushes (message m ∷ is) = flushes is
flushes (flush k ∷ is) = k ∷ flushes is

messages-append : (xs ys : List Item) → messages (xs ++ ys) ≡ messages xs ++ messages ys
unfolding messages
messages-append [] ys = refl
messages-append (message m ∷ xs) ys = ap (◌∷◌ m) (messages-append xs ys)
messages-append (flush k ∷ xs) ys = messages-append xs ys

flushes-append : (xs ys : List Item) → flushes (xs ++ ys) ≡ flushes xs ++ flushes ys
unfolding flushes
flushes-append [] ys = refl
flushes-append (message m ∷ xs) ys = flushes-append xs ys
flushes-append (flush k ∷ xs) ys = ap (◌∷◌ k) (flushes-append xs ys)

abbrev pub held : Option Text → List Item
held none = []
held (some m) = message m ∷ []

-- What may happen: an item is queued by `Send` or `Flush`, the loop takes a turn, the channel is
-- attached and opens, and the peer is closed.
pub data Op : Type 0 where
  queue : Bool → Item → Op
  turn : Bool → Op
  attach opened close : Op

-- The items queued so far, by what the attempt came to.
abbrev pub logged : SendResult → Item → List Item → List Item
logged sent i items = items ++ i ∷ []
logged r i items = items

module _ (sends : List Text → Text → Bool) where
  -- The new state, and the items that were queued.
  unfoldable pub step : Op → Sender × List Item → Sender × List Item
  step (queue pick i) (s, items) = let (t, r) = queue_item pick i s in (t, logged r i items)
  step (turn pick) (s, items) = (send_loop sends pick s, items)
  step attach (s, items) = (record s { has_channel = true }, items)
  step opened (s, items) = (record s { is_ready = true }, items)
  step close (s, items) = (record s { is_closed = true }, items)

  unfoldable pub run : List Op → Sender × List Item → Sender × List Item
  unfolding step
  run [] x = x
  run (o ∷ ops) x = run ops (step o x)

  -- The items that the loop is done with, then the one that it holds, then those that wait: that is
  -- all that was queued, in its order.
  pub record Inv (items done : List Item) (s : Sender) : Type 0 where
    pub split : items ≡ done ++ (held s.holding ++ s.outbound)
    pub in_order : s.errors ≡ 0 → s.handed ≡ messages done
    pub flushed : s.flushed ≡ flushes done
    pub bounded : length s.outbound ≤ s.capacity

  abbrev Kept : Sender × List Item → Type 0
  Kept (s, items) = (done : List Item) × Inv items done s

  queue_item-Kept :
      (pick : Bool) (i : Item) (s : Sender) (items : List Item)
      → Kept (s, items)
      → Kept (step (queue pick i) (s, items))
  unfolding step queue_item
  queue_item-Kept pick i s items (done, v) =
      if_intro (λ (x : Sender × SendResult). Kept (x.0, logged x.1 i items))
        (ltb (length s.outbound) s.capacity && (not s.is_closed || pick)) _ _
        (λ room. (
          done,
          record {
            split = rw v.split (
                append_assoc done (held s.holding ++ s.outbound) (i ∷ [])
                ∙ ap (◌++◌ done) (append_assoc (held s.holding) s.outbound (i ∷ [])));
            in_order = v.in_order;
            flushed = v.flushed;
            bounded = ground (arith, length-append s.outbound (i ∷ []));
          },
        ))
        (λ _.
          if_intro (λ (x : Sender × SendResult). Kept (x.0, logged x.1 i items)) s.is_closed _ _
            (λ _. (done, v)) (λ _. (done, v)))

  module _ (s : Sender) (items done : List Item) (v : Inv items done s) where
    take_item-Kept :
        (l : List Item) → s.holding ≡ none → s.outbound ≡ l → Kept (take_item l s, items)
    unfolding flushes
    take_item-Kept [] h e = (done, v)
    take_item-Kept (flush k ∷ l) h e = (
      done ++ flush k ∷ [],
      record {
        split = v.split ∙ rw (h, e) (sym (append_assoc done (flush k ∷ []) l));
        in_order = λ z.
            v.in_order z
            ∙ sym (
                messages-append done (flush k ∷ [])
                ∙ unfold messages in append-nil (messages done));
        flushed = rw v.flushed (sym (flushes-append done (flush k ∷ [])));
        bounded = omega (arith, ap length e, v.bounded);
      },
    )
    take_item-Kept (message m ∷ l) h e = (
      done,
      record {
        split = v.split ∙ rw (h, e) refl;
        in_order = v.in_order;
        flushed = v.flushed;
        bounded = omega (arith, ap length e, v.bounded);
      },
    )

    send_held-Kept : (m : Text) → s.holding ≡ some m → Kept (send_held sends m s, items)
    unfolding send_held messages
    send_held-Kept m h =
        if_intro (λ (t : Sender). Kept (t, items)) (s.has_channel && sends s.handed m) _ _
          (λ _. (
            done ++ message m ∷ [],
            record {
              split = gone;
              in_order = λ z. rw (v.in_order z) (sym (messages-append done (message m ∷ [])));
              flushed = flushed_same;
              bounded = v.bounded;
            },
          ))
          (λ _. (
            done ++ message m ∷ [],
            record {
              split = gone;
              in_order = λ z. absurd (omega arith);
              flushed = flushed_same;
              bounded = v.bounded;
            },
          ))
      where
        gone : items ≡ (done ++ message m ∷ []) ++ s.outbound
        gone = v.split ∙ rw h (sym (append_assoc done (message m ∷ []) s.outbound))

        flushed_same : s.flushed ≡ flushes (done ++ message m ∷ [])
        flushed_same =
            v.flushed
            ∙ sym
                (flushes-append done (message m ∷ []) ∙ unfold flushes in append-nil (flushes done))

    advance-Kept : (h : Option Text) → s.holding ≡ h → Kept (advance sends h s, items)
    advance-Kept none e = take_item-Kept s.outbound e refl
    advance-Kept (some m) e =
        if_intro (λ (t : Sender). Kept (t, items)) s.is_ready _ _ (λ _. send_held-Kept m e)
          (λ _. (done, v))

  send_loop-Kept :
      (pick : Bool) (s : Sender) (items : List Item)
      → Kept (s, items)
      → Kept (send_loop sends pick s, items)
  unfolding send_loop send_held
  send_loop-Kept pick s items (done, v) =
      if_intro (λ (t : Sender). Kept (t, items)) s.has_ended _ _ (λ _. (done, v))
        (λ _.
          if_intro (λ (t : Sender). Kept (t, items)) (s.is_closed && not pick) _ _
            (λ _. (
              done,
              record {
                split = v.split;
                in_order = v.in_order;
                flushed = v.flushed;
                bounded = v.bounded;
              },
            ))
            (λ _. advance-Kept s items done v s.holding refl))

  run-Kept :
      (ops : List Op) (s : Sender) (items : List Item) → Kept (s, items) → Kept (run ops (s, items))
  unfolding run step
  run-Kept [] s items k = k
  run-Kept (queue pick i ∷ ops) s items k = run-Kept ops _ _ (queue_item-Kept pick i s items k)
  run-Kept (turn pick ∷ ops) s items k = run-Kept ops _ items (send_loop-Kept pick s items k)
  run-Kept (attach ∷ ops) s items (done, v) = run-Kept ops _ items (
    done,
    record { split = v.split; in_order = v.in_order; flushed = v.flushed; bounded = v.bounded },
  )
  run-Kept (opened ∷ ops) s items (done, v) = run-Kept ops _ items (
    done,
    record { split = v.split; in_order = v.in_order; flushed = v.flushed; bounded = v.bounded },
  )
  run-Kept (close ∷ ops) s items (done, v) = run-Kept ops _ items (
    done,
    record { split = v.split; in_order = v.in_order; flushed = v.flushed; bounded = v.bounded },
  )

  -- What was queued is a part that the loop is done with, the message that it holds, and the items
  -- that wait, no more than the capacity, in the order in which they were queued. The flushes of the
  -- first part are those that have been answered; and as long as no send has failed, the channel has
  -- got exactly the messages of that part, in their order, so that a flush is answered only when all
  -- messages queued before it have been handed over.
  pub run_fifo :
      (capacity : ℕ) (ops : List Op)
      → let (s, items) = run ops (start capacity, []) in (done : List Item) × Inv items done s
  run_fifo capacity ops = run-Kept ops (start capacity) [] (
    [],
    record {
      split = refl;
      in_order = λ _. unfold messages in refl;
      flushed = unfold flushes in refl;
      bounded = omega arith;
    },
  )
