-- ===== src/Peer/Channels.antt =====
-- internal/client/peer/peer.go: which data channels a peer takes. A channel is known by a handle; the
-- WebRTC library tells its label and its settings.
use go_cli_messenger.Common.{
  ℕ, ◌≡◌, refl, ap, ◌∙◌, sym, subst, Bool, true, false, ◌&&◌, not, ◌==◌, if◌then◌else◌, Option,
  none, some, is_some, List, [], ◌∷◌, Text, codes, text_eq, text_eq_iff, arith,
}

pub record DataChannel : Type 0 where
  pub handle : ℕ
  pub label : Text
  pub ordered : Bool
  pub max_packet_life_time : Option ℕ
  pub max_retransmits : Option ℕ

pub record Channels : Type 0 where
  pub control : Option ℕ
  pub video : Option ℕ

abbrev pub control_label : Text
control_label = codes "control"

abbrev pub video_label : Text
video_label = codes "ascii-video"

-- `p.channel != nil && p.channel != channel`
abbrev pub is_other : Option ℕ → ℕ → Bool
is_other none handle = false
is_other (some h) handle = not (h == handle)

abbrev pub is_zero : Option ℕ → Bool
is_zero none = false
is_zero (some n) = n == 0

abbrev pub is_control : DataChannel → Bool
is_control c =
    text_eq c.label control_label
    && c.ordered
    && not (is_some c.max_packet_life_time)
    && not (is_some c.max_retransmits)

abbrev pub is_video : DataChannel → Bool
is_video c = text_eq c.label video_label && not c.ordered && is_zero c.max_retransmits

-- `attachControlChannel`: the channels, and whether there was no error.
unfoldable pub attach_control : DataChannel → Channels → Channels × Bool
attach_control c s =
    if not (is_control c)
    then (s, false)
    else if is_other s.control c.handle
    then (s, false)
    else (record s { control = some c.handle }, true)

-- `attachVideoChannel`
unfoldable pub attach_video : DataChannel → Channels → Channels × Bool
attach_video c s =
    if not (is_video c)
    then (s, false)
    else if is_other s.video c.handle
    then (s, false)
    else (record s { video = some c.handle }, true)

-- The callee's callback for a channel that the other side opens.
unfoldable pub on_data_channel : DataChannel → Channels → Channels × Bool
unfolding attach_control attach_video
on_data_channel c s =
    if text_eq c.label control_label
    then attach_control c s
    else if text_eq c.label video_label
    then attach_video c s
    else (s, false)

unfoldable pub on_data_channels : List DataChannel → Channels → Channels
unfolding on_data_channel
on_data_channels [] s = s
on_data_channels (c ∷ cs) s = on_data_channels cs (on_data_channel c s).0

-- The handle of the first channel that passes the test, unless there is one already.
unfoldable pub first_of : (DataChannel → Bool) → Option ℕ → List DataChannel → Option ℕ
first_of test (some h) cs = some h
first_of test none [] = none
first_of test none (c ∷ cs) =
    let rest = first_of test none cs in if test c then some c.handle else rest

-- The options of the channels that a caller creates; those that are not given are unset.
abbrev control_channel : ℕ → DataChannel
control_channel handle = record {
  handle = handle;
  label = control_label;
  ordered = true;
  max_packet_life_time = none;
  max_retransmits = none;
}

abbrev video_channel : ℕ → DataChannel
video_channel handle = record {
  handle = handle;
  label = video_label;
  ordered = false;
  max_packet_life_time = none;
  max_retransmits = some 0;
}

-- The channels that `New` makes for a caller.
unfoldable pub caller_channels : ℕ → ℕ → Channels
unfolding attach_control attach_video
caller_channels first second =
    let (s, _) = attach_control (control_channel first) (record { control = none; video = none }) in
    (attach_video (video_channel second) s).0

first_of-nil : (test : DataChannel → Bool) (o : Option ℕ) → first_of test o [] ≡ o
unfolding first_of
first_of-nil test none = refl
first_of-nil test (some h) = refl

first_of-cons :
    (test : DataChannel → Bool) (o : Option ℕ) (c : DataChannel) (cs : List DataChannel)
    → first_of test o (c ∷ cs)
      ≡ first_of test (if test c && not (is_other o c.handle) then some c.handle else o) cs
unfolding first_of
first_of-cons test none c cs = ground arith
first_of-cons test (some h) c cs = ground arith

labels_apart :
    (c : DataChannel) → text_eq c.label control_label ≡ true → text_eq c.label video_label ≡ false
labels_apart c h =
    subst (λ l. text_eq l video_label ≡ false) (sym ((text_eq_iff c.label control_label).0 h))
      (unfold text_eq in refl)

step_lem :
    (c : DataChannel) (s : Channels)
    → ((on_data_channel c s).0.control
        ≡ (if is_control c && not (is_other s.control c.handle) then some c.handle else s.control))
      × ((on_data_channel c s).0.video
          ≡ (if is_video c && not (is_other s.video c.handle) then some c.handle else s.video))
unfolding on_data_channel attach_control attach_video
step_lem c s = (ground arith, ground (arith, labels_apart c))

-- Of all the channels that the other side opens, a callee takes the first reliable, ordered one with
-- the label of the control channel and the first unordered one without retransmission with that of
-- the video; no later one takes their place.
pub on_data_channels-first :
    (cs : List DataChannel) (s : Channels)
    → ((on_data_channels cs s).control ≡ first_of is_control s.control cs)
      × ((on_data_channels cs s).video ≡ first_of is_video s.video cs)
unfolding on_data_channels
on_data_channels-first [] s =
    (sym (first_of-nil is_control s.control), sym (first_of-nil is_video s.video))
on_data_channels-first (c ∷ cs) s =
    let (p, q) = on_data_channels-first cs (on_data_channel c s).0 in
    let (x, y) = step_lem c s in
    (
      p ∙ ap (λ o. first_of is_control o cs) x ∙ sym (first_of-cons is_control s.control c cs),
      q ∙ ap (λ o. first_of is_video o cs) y ∙ sym (first_of-cons is_video s.video c cs),
    )
