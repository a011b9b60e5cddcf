-- ===== src/Manager/Auto.antt =====
-- The automatic connection: `schedule_auto_connect`, `_begin_auto_connect`, `cancel_auto_connect`.
use thinclient.Prelude.{
  ℕ, ◌-◌, Bool, true, false, not, ◌&&◌, ◌||◌, Option, none, some, is_some, if◌then◌else◌,
  compare_texts,
}
use thinclient.Text.{Text, is_empty}
use thinclient.Config.{Connection}
use thinclient.Config.Layers.{find}
use thinclient.Manager.{Manager, auto_cancelled}

-- with the `silent` flag
unfoldable pub cancel_auto_connect : Bool → Manager → Manager
cancel_auto_connect silent m = record m {
  auto_connect_id = none;
  auto_countdown_id = false;
  auto_connection = none;
  status = if is_some m.auto_connection && not silent then auto_cancelled else m.status;
}

unfoldable pub schedule_auto_connect : Manager → Manager
schedule_auto_connect m =
    let auto = m.cfg.device.auto_connect in
    record m {
      auto_connect_id =
          if is_empty auto || m.session_active || m.countdown_id then none else some auto;
      auto_countdown_id = false;
    }

-- five seconds, the first of which is counted at once
abbrev pub auto_seconds : ℕ
auto_seconds = 5

unfoldable pub begin_auto_connect : Option Connection → Manager → Manager
begin_auto_connect none m = m
begin_auto_connect (some c) m = record m {
  auto_connection = some c;
  auto_remaining = auto_seconds - 1;
  auto_countdown_id = true;
}

-- `launch`, when its timer fires
unfoldable pub launch_auto : Option Text → Manager → Manager
unfolding begin_auto_connect find
launch_auto none m = m
launch_auto (some auto) m =
    let fired = record m { auto_connect_id = none } in
    if m.session_active then fired else begin_auto_connect (find auto m.cfg.connections) fired
