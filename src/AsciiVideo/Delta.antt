-- ===== src/AsciiVideo/Delta.antt =====
-- internal/client/asciivideo/codec.go: the runs of changed cells, `encodeDelta` and `applyDelta`.
-- A slice that is scanned by an index is the list of what is left of it.
pub mod Roundtrip
pub mod Length
use go_cli_messenger.Common.{
  ℕ, zero, suc, ◌+◌, ◌-◌, Bool, true, false, ◌&&◌, ◌||◌, not, ◌==◌, leb, ltb, if◌then◌else◌, List,
  [], ◌∷◌, ◌++◌, length, take, drop, Text,
}
use go_cli_messenger.AsciiVideo.Wire.{put16, put32, get16, get32}

-- The inner loop: the changed cells from here on, at most `room` of them, and what is left of both.
pub take_run : ℕ → Text → Text → Text × Text × Text
take_run zero ps cs = ([], ps, cs)
take_run (suc room) [] cs = ([], [], cs)
take_run (suc room) (p ∷ ps) [] = ([], p ∷ ps, [])
take_run (suc room) (p ∷ ps) (c ∷ cs) =
    let (run, ps', cs') = take_run room ps cs in
    if c == p then ([], p ∷ ps, c ∷ cs) else (c ∷ run, ps', cs')

abbrev pub max_run : ℕ
max_run = 65535

abbrev pub entry : ℕ → Text → Text
entry start run = put32 start (put16 (length run) run)

-- The outer loop from `index` on, on fuel.
pub encode_from : ℕ → ℕ → Text → Text → Text
encode_from zero index ps cs = []
encode_from (suc f) index [] cs = []
encode_from (suc f) index (p ∷ ps) [] = []
encode_from (suc f) index (p ∷ ps) (c ∷ cs) =
    let skip = encode_from f (index + 1) ps cs in
    let (run, ps', cs') = take_run max_run (p ∷ ps) (c ∷ cs) in
    let rest = encode_from f (index + length run) ps' cs' in
    if c == p then skip else entry index run ++ rest

unfoldable pub encode_delta : Text → Text → Text
unfolding encode_from take_run
encode_delta previous current =
    if length previous == length current
    then encode_from (length current) 0 previous current
    else []

-- `copy(cells[start:start+len(run)], run)`
abbrev pub overwrite : Text → ℕ → Text → Text
overwrite cells start run = take start cells ++ run ++ drop (start + length run) cells

-- The cells as the loop leaves them, and whether it ended without an error: `applyDelta` writes into
-- its argument, also where it fails later.
pub apply_from : ℕ → Text → Text → Text × Bool
apply_from zero cells payload = (cells, false)
apply_from (suc f) cells payload =
    let start = get32 payload 0 in
    let run_length = get16 payload 4 in
    let tail = drop 6 payload in
    let next = apply_from f (overwrite cells start (take run_length tail)) (drop run_length tail) in
    if length payload == 0
    then (cells, true)
    else if ltb (length payload) 6
    then (cells, false)
    else if run_length == 0
        || ltb (length tail) run_length
        || ltb (length cells) (start + run_length)
    then (cells, false)
    else next

unfoldable pub apply_delta : Text → Text → Text × Bool
unfolding apply_from
apply_delta cells payload = apply_from (length payload + 1) cells payload
