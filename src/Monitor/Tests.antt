-- ===== src/Monitor/Tests.antt =====
-- The monitor on a small life of the server: a client boots without a MAC header, then asks for its
-- configuration with one while the root image is still being sent.
use thinclient.Prelude.{
  ◌≡◌, ◌+◌, refl, false, Option, none, some, List, [], ◌∷◌, arith, length, pos, negsuc,
  compare_texts, compare_numbers,
}
use thinclient.Text.{codes}
use thinclient.Dict.{lookup}
use thinclient.Dict.Laws.{total}
use thinclient.Monitor.{Monitor, ActiveRequest}
use thinclient.Monitor.Clients.{request_profile, touch_client, identify}
use thinclient.Monitor.Requests.{Arrival, Ending, begin, finish, new_request, is_successful}
use thinclient.Monitor.Durable.{Setup, StateFile, fresh, start, state_document, recover_one}
use thinclient.Monitor.Events.{Event, arrive, announce, send, complete, step, run}
use thinclient.Monitor.Saves.{
  Server, ServerStep, change, snapshot, write, report, written, idle, serve,
}
use thinclient.Monitor.Active.{bytes_in_flight}
use thinclient.Monitor.Accounting.{IsSound, fresh-IsSound, run-IsSound}
use thinclient.Monitor.Takeover.{TakesOver, touch_client-TakesOver}
use thinclient.Monitor.Outcome.{accounted, credits, accounted-run, Succeeds, Counted, finish_lem}
use thinclient.Monitor.Crash.{Restarted, start_lem}
use thinclient.Monitor.Service.{IsDurable, Survives, unwritten, saved-IsDurable, crash_lem}

abbrev setup : Setup
setup = record {
  max_clients = 2;
  max_requests = 3;
  state_file = some (codes "/state.json");
  started_at = 5;
}

abbrev root_image : Arrival
root_image = record {
  method = codes "GET";
  path = codes "/Thinclient/Lite/filesystem.squashfs";
  ip = codes "10.0.0.7";
  mac = none;
  now = 10;
  monotonic_now = 110;
}

abbrev configuration : Arrival
configuration = record root_image {
  path = codes "/config.json";
  mac = some (codes "aa:bb:cc:dd:ee:ff");
  now = 12;
  monotonic_now = 112;
}

abbrev good_end : Ending
good_end = record {
  status = some 200;
  interrupted = false;
  finished_epoch = 20;
  finished_monotonic = 120;
}

abbrev events : List Event
events =
    arrive root_image
    ∷ announce 1 (pos 100)
    ∷ send 1 (pos 60)
    ∷ arrive configuration
    ∷ send 1 (negsuc 3)
    ∷ send 9 (pos 5)
    ∷ complete 2 good_end
    ∷ []

everything : Unit {0}
unfolding run step fresh begin finish is_successful lookup touch_client identify request_profile
everything = tt

abbrev after : Monitor
after = run events (fresh setup)

-- The transfer in flight has moved to the client that named its address.
moved :
    let m = after in
    (length m.clients ≡ 1)
    × (length m.active ≡ 1)
    × (m.successful_total ≡ 1)
    × (m.request_total ≡ 2)
    × (bytes_in_flight m.active ≡ 60)
unfolding everything
moved = (refl, refl, refl, refl, refl)

profile_runs : request_profile (codes "/Thinclient/FULL/vmlinuz") ≡ some (codes "full")
unfolding request_profile
profile_runs = refl

run-IsSound_example : IsSound (run events (fresh setup))
run-IsSound_example = run-IsSound events (fresh setup) (fresh-IsSound setup)

accounted-run_example :
    accounted (run events (fresh setup)) ≡ accounted (fresh setup) + credits events (fresh setup)
accounted-run_example = accounted-run events (fresh setup) (fresh-IsSound setup)

abbrev in_flight : ActiveRequest
in_flight = new_request 1 root_image

abbrev one_begun : Monitor
one_begun = run (arrive root_image ∷ []) (fresh setup)

one_begun-IsSound : IsSound one_begun
one_begun-IsSound = run-IsSound (arrive root_image ∷ []) (fresh setup) (fresh-IsSound setup)

one_begun_found : lookup 1 one_begun.active ≡ some in_flight
unfolding everything new_request
one_begun_found = refl

finish_lem_example :
    (Succeeds in_flight good_end → Counted one_begun (finish 1 good_end one_begun) 1 0)
    × (¬ Succeeds in_flight good_end → Counted one_begun (finish 1 good_end one_begun) 0 1)
    × (lookup 1 (finish 1 good_end one_begun).active ≡ none)
    × ((finish 1 good_end one_begun).bytes_total ≡ one_begun.bytes_total + in_flight.bytes_sent)
finish_lem_example = finish_lem 1 good_end one_begun in_flight one_begun-IsSound one_begun_found

touch_client-TakesOver_example :
    let m = touch_client configuration.ip configuration.mac configuration.path 12 one_begun in
    TakesOver configuration.ip configuration.mac one_begun.clients m.clients
    × (total (λ c. c.requests) m.clients ≡ total (λ c. c.requests) one_begun.clients + 1)
    × (total (λ c. c.boots) m.clients ≡ total (λ c. c.boots) one_begun.clients)
    × (total (λ c. c.bytes_sent) m.clients ≡ total (λ c. c.bytes_sent) one_begun.clients)
unfolding everything
touch_client-TakesOver_example =
    touch_client-TakesOver configuration.ip configuration.mac configuration.path 12 one_begun
      (omega arith) (tt, tt)

abbrev one_begun_file : Option StateFile
one_begun_file = some (record { document = state_document 29 one_begun; size = 900 })

start_lem_example :
    Restarted one_begun (start setup 30 one_begun_file) × IsSound (start setup 30 one_begun_file)
unfolding everything
start_lem_example =
    start_lem setup 30 29 900 one_begun one_begun-IsSound (omega arith) (omega arith) (omega arith)

-- a file of more than 8 MiB is not restored
too_large :
    start setup 30 (some (record { document = state_document 29 one_begun; size = 8388609 }))
    ≡ fresh setup
unfolding everything start
too_large = refl

abbrev started : Server
started = record {
  monitor = fresh setup;
  disk = some (record { document = state_document 5 (fresh setup); size = 300 });
  waiting = 0;
  saver = idle;
}

started-IsDurable : IsDurable started
unfolding fresh
started-IsDurable =
    saved-IsDurable 5 300 (fresh setup) (codes "/state.json") refl (fresh-IsSound setup)

-- Two requests arrive; the first one's save is written while the second one has yet to be saved.
abbrev two_arrive : List ServerStep
two_arrive =
    change (arrive root_image)
    ∷ snapshot 11
    ∷ change (arrive configuration)
    ∷ write 700 written
    ∷ report
    ∷ []

crash_lem_example :
    Survives
      ((serve two_arrive started).waiting + unwritten (serve two_arrive started).saver)
      (serve two_arrive started).monitor
      (start setup 30 (serve two_arrive started).disk)
unfolding everything serve
crash_lem_example =
    crash_lem two_arrive started setup 30 (tt, (tt, (tt, (refl, (tt, tt))))) started-IsDurable
      (omega arith) (omega arith, omega arith)

-- the second arrival is lost, and was waiting
one_lost :
    ((serve two_arrive started).monitor.request_total ≡ 2)
    × ((start setup 30 (serve two_arrive started).disk).request_total ≡ 1)
    × ((serve two_arrive started).waiting ≡ 1)
unfolding everything serve start recover_one
one_lost = (refl, refl, refl)
