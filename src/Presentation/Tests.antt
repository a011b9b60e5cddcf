-- ===== src/Presentation/Tests.antt =====
-- A small report, and the states of the cache.
use thinclient.Prelude.{some, ◌≡◌, refl, true, false, none, List, [], ◌∷◌, inr, map}
use thinclient.Text.{codes, is_space, rstrip}
use thinclient.Diagnostics.{Check, passed, failed_with}
use thinclient.Diagnostics.Endpoint.{Target}
use thinclient.Diagnostics.Report.{Findings, format_network_report}
use thinclient.Presentation.Rows.{Row, RowState, is_ok, is_failed, is_skipped, parse_network_report}
use thinclient.Presentation.Lines.{begins-IsShown}
use thinclient.Presentation.Reading.{checked, IsClean, rows_of}
use thinclient.Presentation.Roundtrip.{title_of, parse_network_report-format_network_report}
use thinclient.Presentation.Support.{changelog_text}
use thinclient.Presentation.Cache.{cache_status, IsShowable, cache_status-IsShowable}

abbrev target : Target
target = record {
  target_name = codes "The desk";
  target_protocol = codes "vnc";
  target_host = codes "desk.example";
  target_port = 5900;
  via_gateway = false;
  configured_host = codes "desk.example";
  configured_port = 5900;
}

abbrev findings : Findings
findings = record {
  target = target;
  local = record { local_interface = codes "eth0"; local_address = codes "10.0.0.3/24" };
  default_gateway = codes "10.0.0.1";
  ping = failed_with (codes "no reply");
  dns = passed (codes "10.0.0.7");
  tcp = failed_with (codes "Connection refused");
  route = none;
  protocol = none;
}

abbrev route_check : Check
route_check = passed (codes "eth0 from 10.0.0.3")

abbrev handshake : Check
handshake = record { ok = false; detail = codes "skipped because TCP failed"; skipped = true }

findings-IsClean : IsClean findings route_check handshake
unfolding rstrip is_space
findings-IsClean = record {
  name = begins-IsShown _ _ refl refl refl;
  host = begins-IsShown _ _ refl refl refl;
  other_host = refl;
  interface = begins-IsShown _ _ refl refl refl;
  address = begins-IsShown _ _ refl refl refl;
  gateway = begins-IsShown _ _ refl refl refl;
  ping = begins-IsShown _ _ refl refl refl;
  dns = begins-IsShown _ _ refl refl refl;
  tcp = begins-IsShown _ _ refl refl refl;
  route = begins-IsShown _ _ refl refl refl;
  protocol = begins-IsShown _ _ refl refl refl;
}

parse_network_report-format_network_report_example :
    parse_network_report (format_network_report (checked findings route_check handshake))
    ≡ rows_of (title_of target.target_protocol) findings route_check handshake
parse_network_report-format_network_report_example =
    parse_network_report-format_network_report findings route_check handshake findings-IsClean
      (inr refl)

abbrev states : List Row → List RowState
states rs = map (λ r. r.state) rs

-- A complaint of the resolver that has two lines, the second of which is read as the port's row.
abbrev two_lines : Findings
two_lines = record findings { dns = failed_with (codes "no such host\nTCP 1: OK — connected") }

misread :
    states (parse_network_report (format_network_report two_lines))
    ≡ is_ok ∷ is_ok ∷ is_failed ∷ is_skipped ∷ is_ok ∷ []
unfolding parse_network_report format_network_report
misread = refl

cache_runs : (cache_status [] [] (codes "state=saving\npercent=140\n")).percent ≡ 100
unfolding cache_status
cache_runs = refl

cache_status-IsShowable_example :
    IsShowable (cache_status [] [] (codes "state=saving\npercent=140\n"))
cache_status-IsShowable_example =
    cache_status-IsShowable [] [] (codes "state=saving\npercent=140\n")

notes_run :
    (changelog_text (some (codes "  1.4 fixes \n\n older")) 12 ≡ codes "1.4 fixes")
    × (changelog_text (some (codes "1.4 fixes, more")) 8
        ≡ codes "1.4 fixe\n\n[Older entries omitted]")
    × (changelog_text none 8 ≡ codes "Release notes are not available in this image.")
unfolding changelog_text
notes_run = (refl, refl, refl)
