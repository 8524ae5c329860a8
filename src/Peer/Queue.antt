-- ===== src/Peer/Queue.antt =====
-- internal/client/peer/peer.go: the queues of real-time data, `queueLatest` and the queue of audio
-- packets. A queue has one writer, so nothing is put into it between the steps of an operation.
pub mod Latest
use go_cli_messenger.Common.{
  ℕ, Bool, true, false, ltb, if◌then◌else◌, List, [], ◌∷◌, ◌++◌, length, drop,
}

module _ {ℓ} {A : Type ℓ} where
  -- `queueLatest`, for any capacity: a full queue loses its oldest item. The queue of audio packets
  -- is filled by the same steps.
  unfoldable pub queue_latest : ℕ → A → List A → List A × Bool
  queue_latest capacity v q =
      if ltb (length q) capacity
      then (q ++ v ∷ [], true)
      else if ltb (length (drop 1 q)) capacity
      then (drop 1 q ++ v ∷ [], true)
      else (drop 1 q, false)
