-- ===== src/Monitor/Recovery.antt =====
-- The loop of `_recover_interrupted_requests`: what it adds to the totals and leaves alone.
use thinclient.Prelude.{
  ℕ, ◌+◌, ◌≤◌, ◌≡◌, refl, ◌∙◌, [], ◌∷◌, arith, length, compare_texts, compare_numbers, length-take,
}
use thinclient.Text.{Text}
use thinclient.Dict.{Dict, modify}
use thinclient.Dict.Laws.{total, total-modify, length-modify}
use thinclient.Monitor.{Client, SavedRequest, Monitor}
use thinclient.Monitor.Durable.{recover_one, recover_client, recover}

abbrev pub saved_bytes : Dict ℕ SavedRequest → ℕ
saved_bytes d = total (λ r. r.bytes_sent) d

-- what the loop over the interrupted requests leaves alone and what it adds
pub record Recovered (d : Dict ℕ SavedRequest) (m m' : Monitor) : Type 0 where
  pub kept :
      (m'.request_total ≡ m.request_total)
      × (m'.successful_total ≡ m.successful_total)
      × (m'.boot_total ≡ m.boot_total)
      × (m'.server_start_total ≡ m.server_start_total)
      × (m'.max_clients ≡ m.max_clients)
      × (m'.max_requests ≡ m.max_requests)
      × (m'.next_request_id ≡ m.next_request_id)
  pub failures : m'.failed_total ≡ m.failed_total + length d
  pub recoveries : m'.recovered_interrupted_total ≡ m.recovered_interrupted_total + length d
  pub bytes : m'.bytes_total ≡ m.bytes_total + saved_bytes d
  pub same_active : m'.active ≡ m.active
  pub same_clients : length m'.clients ≡ length m.clients
  pub history : length m.requests ≤ m.max_requests → length m'.requests ≤ m.max_requests
  pub client_requests : total (λ c. c.requests) m'.clients ≤ total (λ c. c.requests) m.clients
  pub client_boots : total (λ c. c.boots) m'.clients ≤ total (λ c. c.boots) m.clients
  pub client_bytes :
      total (λ c. c.bytes_sent) m'.clients ≤ total (λ c. c.bytes_sent) m.clients + saved_bytes d

module _ (now : ℕ) (r : SavedRequest) (d : Dict Text Client) where
  total-recover_client :
      (f : Client → ℕ) (n : ℕ)
      → ((c : Client) → f (recover_client now r c) ≡ f c + n)
      → total f (modify r.client_key (recover_client now r) d) ≤ total f d + n
  total-recover_client f n h =
      ground (arith, total-modify f (recover_client now r) n r.client_key d h)

recover_one-Recovered :
    (now id : ℕ) (r : SavedRequest) (m : Monitor) → Recovered ((id, r) ∷ []) m (recover_one now r m)
unfolding recover_one recover_client
recover_one-Recovered now id r m = record {
  kept = (refl, refl, refl, refl, refl, refl, refl);
  failures = refl;
  recoveries = refl;
  bytes = omega arith;
  same_active = refl;
  same_clients = length-modify r.client_key (recover_client now r) m.clients;
  history = λ h. omega (arith, length-take m.max_requests (_ ∷ m.requests));
  client_requests =
      omega (arith, total-recover_client now r m.clients (λ c. c.requests) 0 (λ c. omega arith));
  client_boots =
      omega (arith, total-recover_client now r m.clients (λ c. c.boots) 0 (λ c. omega arith));
  client_bytes =
      omega
        (arith, total-recover_client now r m.clients (λ c. c.bytes_sent) r.bytes_sent (λ c. refl));
}

pub recover-Recovered :
    (now : ℕ) (d : Dict ℕ SavedRequest) (m : Monitor) → Recovered d m (recover now d m)
unfolding recover
recover-Recovered now [] m = record {
  kept = (refl, refl, refl, refl, refl, refl, refl);
  failures = omega arith;
  recoveries = omega arith;
  bytes = omega arith;
  same_active = refl;
  same_clients = refl;
  history = λ h. h;
  client_requests = omega arith;
  client_boots = omega arith;
  client_bytes = omega arith;
}
recover-Recovered now ((id, r) ∷ d) m =
    let one = recover_one-Recovered now id r m in
    let rest = recover-Recovered now d (recover_one now r m) in
    record {
      kept = omega (arith, one.kept, rest.kept);
      failures = omega (arith, one.failures, rest.failures);
      recoveries = omega (arith, one.recoveries, rest.recoveries);
      bytes = omega (arith, one.bytes, rest.bytes);
      same_active = rest.same_active ∙ one.same_active;
      same_clients = omega (arith, one.same_clients, rest.same_clients);
      history = λ h. omega (arith, one.history h, one.kept, rest.history);
      client_requests = omega (arith, one.client_requests, rest.client_requests);
      client_boots = omega (arith, one.client_boots, rest.client_boots);
      client_bytes = omega (arith, one.client_bytes, rest.client_bytes);
    }
