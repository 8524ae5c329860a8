-- ===== src/App/Signals/Hello.antt =====
-- What a client tells of itself.
use go_cli_messenger.Common.{
  ℕ, ◌≡◌, ◌<◌, ◌≤◌, Bool, true, false, Option, none, some, arith, ℤ, pos, negsuc, in_range, ◌&&◌,
}
use go_cli_messenger.Protocol.Validate as Validate
use go_cli_messenger.Protocol.Control.{check_hello}
use go_cli_messenger.Terminal.Sanitize.{video_size}
use go_cli_messenger.App.Signals.{
  VideoConfig, or_default, local_capabilities, fitted_size, told_capabilities,
}

-- A count is in its range, whatever the configuration says.
or_default-in_range :
    (max default : ℕ) (value : ℤ)
    → 0 < default
    → default ≤ max
    → in_range 1 max (or_default max default value) ≡ true
or_default-in_range max default (pos n) h k = ground arith
or_default-in_range max default (negsuc n) h k = ground arith

-- A terminal of any size leaves it there.
fitted_size-in_range :
    (interactive : Bool) (size : Option (ℕ × ℕ)) (columns rows : ℤ)
    → in_range 1 200 columns ≡ true
    → in_range 1 80 rows ≡ true
    → let (x, y) = fitted_size interactive size columns rows in
      in_range 1 200 x && in_range 1 80 y ≡ true
unfolding video_size
fitted_size-in_range true (some (width, height)) (pos m) (pos n) h k = ground arith
fitted_size-in_range true none (pos m) (pos n) h k = ground arith
fitted_size-in_range false size (pos m) (pos n) h k = ground arith
fitted_size-in_range interactive size (negsuc m) rows h k = ground arith
fitted_size-in_range interactive size (pos m) (negsuc n) h k = ground arith

-- Whatever sizes and rate the configuration says, also none or negative ones, and whatever size the
-- terminal has, if it is one, the capabilities that a client tells in its hello pass the check that
-- the other side makes of a hello.
pub check_hello-told_capabilities :
    (interactive : Bool) (size : Option (ℕ × ℕ)) (c : VideoConfig)
    → check_hello (some (told_capabilities interactive size c)) ≡ Validate.ok tt
unfolding local_capabilities told_capabilities
check_hello-told_capabilities interactive size c =
    let fits =
      fitted_size-in_range interactive size (or_default 200 200 c.columns) (or_default 80 80 c.rows)
        (or_default-in_range 200 200 c.columns (omega arith) (omega arith))
        (or_default-in_range 80 80 c.rows (omega arith) (omega arith)) in
    let rate = or_default-in_range 30 15 c.fps (omega arith) (omega arith) in
    ground (arith, fits, rate)
