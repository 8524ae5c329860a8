-- ===== src/Peer/Receiving/Once.antt =====
-- A message that comes again is not passed on again.
use go_cli_messenger.Common.{
  suc, ◌≤◌, ◌<◌, ◌≡◌, refl, sym, ap, ◌∙◌, if_intro, true, false, List, [], ◌∷◌, ◌++◌, length, Text,
  arith,
}
use go_cli_messenger.Protocol.Message.{Json, ControlMessage}
use go_cli_messenger.Protocol.Validate as Validate
use go_cli_messenger.Protocol.Control.{decode_control}
use go_cli_messenger.Seen.{Seen, duplicate}
use go_cli_messenger.Seen.Window.{Inv, member, filter_all, duplicate_caught}
use go_cli_messenger.Peer.Receiving.{
  control_message, Receiver, seen, on_decoded, on_message, on_messages,
}

module _ (json : Json) (v : Validate.Validator) where
  -- The ids of the messages that can be decoded.
  ids_of : Validate.Result ControlMessage → List Text
  ids_of (Validate.err e) = []
  ids_of (Validate.ok m) = m.id ∷ []

  ids : List Text → List Text
  ids [] = []
  ids (b ∷ bs) = ids_of (decode_control json b v) ++ ids bs

  length-ids : (bs : List Text) → length (ids bs) ≤ length bs
  unfolding ids ids_of
  length-ids [] = omega arith
  length-ids (b ∷ bs) = by_result (decode_control json b v) (length-ids bs)
    where
      by_result :
          (r : Validate.Result ControlMessage)
          → length (ids bs) ≤ length bs
          → length (ids_of r ++ ids bs) ≤ suc (length bs)
      by_result (Validate.err e) h = omega arith
      by_result (Validate.ok m) h = omega arith

  on_decoded-seen :
      (d : Validate.Result ControlMessage) (r : Receiver)
      → (on_decoded json v d r).seen_messages ≡ filter_all (ids_of d) r.seen_messages
  unfolding filter_all ids_of seen
  on_decoded-seen (Validate.err e) r = refl
  on_decoded-seen (Validate.ok m) r =
      if_intro (λ (x : Receiver). x.seen_messages ≡ (duplicate m.id r.seen_messages).0)
        (duplicate m.id r.seen_messages).1 _ _ (λ _. refl) (λ _. refl)

  filter_all-append :
      (xs ys : List Text) (s : Seen) → filter_all (xs ++ ys) s ≡ filter_all ys (filter_all xs s)
  unfolding filter_all
  filter_all-append [] ys s = refl
  filter_all-append (x ∷ xs) ys s = filter_all-append xs ys (duplicate x s).0

  on_messages-seen :
      (bs : List Text) (r : Receiver)
      → (on_messages json v bs r).seen_messages ≡ filter_all (ids bs) r.seen_messages
  unfolding on_messages on_message ids filter_all
  on_messages-seen [] r = refl
  on_messages-seen (b ∷ bs) r =
      on_messages-seen bs (on_decoded json v (decode_control json b v) r)
      ∙ ap (filter_all (ids bs)) (on_decoded-seen (decode_control json b v) r)
      ∙ sym (filter_all-append (ids_of (decode_control json b v)) (ids bs) r.seen_messages)

  module _ (m : ControlMessage) (r : Receiver) where
    on_decoded-new :
        (duplicate m.id r.seen_messages).1 ≡ false
        → (on_decoded json v (Validate.ok m) r).events ≡ r.events ++ control_message m ∷ []
    unfolding seen
    on_decoded-new h = rw h refl

    on_decoded-known :
        (duplicate m.id r.seen_messages).1 ≡ true
        → (on_decoded json v (Validate.ok m) r).events ≡ r.events
    unfolding seen
    on_decoded-known h = rw h refl

  -- A message whose id is new gives rise to one event, and no message with that id gives rise to
  -- another before as many further messages have come as the filter remembers, whatever these are.
  pub on_message_once :
      (r : Receiver) (first again : Text) (m n : ControlMessage) (bs : List Text)
      → Inv r.seen_messages
      → member m.id r.seen_messages.seen_order ≡ false
      → decode_control json first v ≡ Validate.ok m
      → decode_control json again v ≡ Validate.ok n
      → n.id ≡ m.id
      → length bs < r.seen_messages.seen_limit
      → let after = on_message json v first r in
        let later = on_messages json v bs after in
        (after.events ≡ r.events ++ control_message m ∷ [])
        × ((on_message json v again later).events ≡ later.events)
  unfolding on_message filter_all ids_of
  on_message_once r first again m n bs inv new e f same short =
      let (fresh, caught) =
        duplicate_caught m.id (ids bs) r.seen_messages inv new (omega (arith, length-ids bs)) in
      rw (e, f)
        (
          on_decoded-new m r fresh,
          on_decoded-known n _ (
              ap (λ i. (duplicate i later.seen_messages).1) same
              ∙ ap (λ s. (duplicate m.id s).1)
                  (on_messages-seen bs (on_decoded json v (Validate.ok m) r)
                    ∙ ap (filter_all (ids bs)) (on_decoded-seen (Validate.ok m) r))
              ∙ caught),
        )
    where
      later : Receiver
      later = on_messages json v bs (on_decoded json v (Validate.ok m) r)
