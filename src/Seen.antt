-- ===== src/Seen.antt =====
-- The duplicate filter of a client connection (internal/server/websocket/server.go): the ids of the
-- last messages, as a set for the test and as a queue for the eviction.
pub mod Window
use go_cli_messenger.Common.{
  ℕ, ◌≡◌, Bool, true, false, Option, none, some, List, [], ◌∷◌, ◌++◌, length, ltb, is_some,
  if◌then◌else◌, Text, Dict, lookup, insert, delete,
}

pub record Seen : Type 0 where
  pub seen_ids : Dict (Unit {0})
  pub seen_order : List Text
  pub seen_limit : ℕ

unfoldable pub empty : ℕ → Seen
empty limit = record { seen_ids = []; seen_order = []; seen_limit = limit }

-- `oldest := c.seenOrder[0]` and its removal, when the queue has outgrown the limit
abbrev evict : List Text → Seen → Seen
evict [] s = s
evict (oldest ∷ rest) s =
    if ltb s.seen_limit (length (oldest ∷ rest))
    then record s { seen_order = rest; seen_ids = delete oldest s.seen_ids }
    else s

abbrev remember : Text → Seen → Seen
remember id s = record s {
  seen_ids = insert id tt s.seen_ids;
  seen_order = s.seen_order ++ id ∷ [];
}

unfoldable pub duplicate : Text → Seen → Seen × Bool
duplicate id s =
    if is_some (lookup id s.seen_ids)
    then (s, true)
    else (evict (remember id s).seen_order (remember id s), false)
