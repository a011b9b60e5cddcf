-- ===== src/Monitor/Events.antt =====
-- The life of the monitor in memory: the changes that the request threads make, each under the lock.
use thinclient.Prelude.{ℕ, List, [], ◌∷◌, ℤ, compare_numbers}
use thinclient.Monitor.{Monitor}
use thinclient.Monitor.Requests.{Arrival, Ending, begin, set_content_length, add_bytes, finish}

pub data Event : Type 0 where
  arrive : Arrival → Event
  announce : ℕ → ℤ → Event
  send : ℕ → ℤ → Event
  complete : ℕ → Ending → Event

-- the change under the lock
unfoldable pub step : Event → Monitor → Monitor
unfolding begin set_content_length add_bytes finish
step (arrive a) m = (begin a m).0
step (announce id length) m = set_content_length id length m
step (send id count) m = add_bytes id count m
step (complete id e) m = finish id e m

unfoldable pub run : List Event → Monitor → Monitor
run [] m = m
run (e ∷ es) m = run es (step e m)
