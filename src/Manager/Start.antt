-- ===== src/Manager/Start.antt =====
-- `start_session` up to the start of its thread, and `connect_auto_now`.
use thinclient.Prelude.{
  Bool, true, false, not, ◌&&◌, ◌||◌, Option, none, some, ◌∷◌, if◌then◌else◌, ◌==◌, compare_texts,
}
use thinclient.Text.{codes, is_empty}
use thinclient.Dict.{lookup, insert}
use thinclient.Config.{Connection}
use thinclient.Command.Rdp.{setting_or}
use thinclient.Manager.{
  Manager, Entered, Credentials, asks, select_first, no_address, needs_credentials, connecting,
  set_status, open_dialog,
}
use thinclient.Manager.Worker.{Observed, session_worker}
use thinclient.Manager.Auto.{cancel_auto_connect}

unfoldable pub is_vnc : Connection → Bool
unfolding setting_or
is_vnc c = setting_or "rdp" c.protocol == codes "vnc"

-- conn.update(transient)
abbrev pub with_credentials : Option Credentials → Connection → Connection
with_credentials none c = c
with_credentials (some t) c = record c {
  username = t.credential_username;
  domain = t.credential_domain;
  password = t.credential_password;
}

abbrev pub transient : Connection → Manager → Option Credentials
transient c m = if is_vnc c then none else lookup c.id m.session_credentials

-- the last check and the start of the thread
unfoldable pub launch_session : Connection → Observed → Manager → Manager
unfolding is_vnc session_worker
launch_session c o m =
    if not (is_vnc c) && (is_empty c.username || is_empty c.password)
    then set_status (needs_credentials c.name) m
    else record m {
      session_active = true;
      cancel_reconnect = false;
      session_cancelled = false;
      connect_sensitive = false;
      progress_open = true;
      status = connecting c.name;
      workers = session_worker c o ∷ m.workers;
    }

unfoldable pub prompt_or_launch : Connection → Observed → Manager → Manager
unfolding launch_session
prompt_or_launch c o m =
    if not (is_vnc c) && c.prompt_credentials && (is_empty c.username || is_empty c.password)
    then open_dialog (asks c) m
    else launch_session c o m

unfoldable pub start_chosen : Option Connection → Observed → Manager → Manager
unfolding prompt_or_launch lookup
start_chosen none o m = set_status select_first m
start_chosen (some c) o m =
    if is_empty c.host
    then set_status no_address m
    else prompt_or_launch (with_credentials (transient c m) c) o m

unfoldable pub start_session : Option Connection → Observed → Manager → Manager
unfolding start_chosen cancel_auto_connect
start_session choice o m =
    if m.session_active then m else start_chosen choice o (cancel_auto_connect true m)

abbrev pub entered : Entered → Credentials
entered e = record {
  credential_username = e.entered_username;
  credential_domain = e.entered_domain;
  credential_password = e.entered_password;
}

-- the credentials kept for this session of the window, if the user asked for it
unfoldable pub remembered : Connection → Entered → Manager → Manager
unfolding insert
remembered c e m = record m {
  session_credentials =
      if e.remember then insert c.id (entered e) m.session_credentials else m.session_credentials;
}

-- the rest of `start_session` once the credential dialog was accepted
unfoldable pub go_on : Connection → Entered → Observed → Manager → Manager
unfolding launch_session remembered
go_on c e o m = launch_session (with_credentials (some (entered e)) c) o (remembered c e m)

unfoldable pub start_auto : Option Connection → Observed → Manager → Manager
unfolding start_session
start_auto none o m = m
start_auto (some c) o m = start_session (some c) o m

unfoldable pub connect_auto_now : Observed → Manager → Manager
unfolding start_auto cancel_auto_connect
connect_auto_now o m = start_auto m.auto_connection o (cancel_auto_connect true m)
