-- ===== src/Monitor/Ledger.antt =====
-- What the client table adds up to: a request is entered for exactly one client, and activity that
-- moves from an address to an identified device is neither lost nor counted twice.
use thinclient.Prelude.{
  ℕ, ◌+◌, ◌≤◌, ◌<◌, ◌≡◌, refl, Option, none, some, [], ◌∷◌, arith, length, is_some, compare_texts,
  compare_numbers, length-append, Bool-cases, inl, inr,
}
use thinclient.Text.{Text}
use thinclient.Dict.{lookup, erase, insert_last}
use thinclient.Dict.Laws.{
  worth, total, total-erase, length-erase, total-insert_last, sum_by-trim, trim_of_le,
}
use thinclient.Monitor.{Client, Monitor, truthy}
use thinclient.Monitor.Clients.{
  client_key, new_client, merge_clients, or_new, merge_found, identify, seen_again, touch_client,
}

-- a count that a client gathers: a new client has none, and merged clients have both counts
pub record IsTally (f : Client → ℕ) : Type 0 where
  pub of_new : (ip : Text) (mac : Option Text) (now : ℕ) → f (new_client ip mac now) ≡ 0
  pub of_merge : (a b : Client) → f (merge_clients a b) ≡ f a + f b

pub requests-IsTally : IsTally (λ c. c.requests)
unfolding new_client merge_clients
requests-IsTally = record { of_new = λ ip mac now. refl; of_merge = λ a b. refl }

pub boots-IsTally : IsTally (λ c. c.boots)
unfolding new_client merge_clients
boots-IsTally = record { of_new = λ ip mac now. refl; of_merge = λ a b. refl }

pub bytes_sent-IsTally : IsTally (λ c. c.bytes_sent)
unfolding new_client merge_clients
bytes_sent-IsTally = record { of_new = λ ip mac now. refl; of_merge = λ a b. refl }

module _ (f : Client → ℕ) (tally : IsTally f) where
  pub tally-or_new :
      (ip : Text) (mac : Option Text) (now : ℕ) (o : Option Client)
      → f (or_new (new_client ip mac now) o) ≡ worth f o
  tally-or_new ip mac now none = tally.of_new ip mac now
  tally-or_new ip mac now (some c) = refl

  pub tally-merge_found : (c : Client) (o : Option Client) → f (merge_found c o) ≡ f c + worth f o
  tally-merge_found c none = omega arith
  tally-merge_found c (some a) = tally.of_merge c a

  total-identify :
      (ip : Text) (mac : Option Text) (now : ℕ) (m : Monitor)
      → let (client, clients, active) = identify ip mac now m in
        total f clients + f client
        ≡ total f m.clients + worth f (lookup (client_key ip mac) clients)
  unfolding identify
  total-identify ip mac now m =
      let key = client_key ip mac in
      let anonymous_key = client_key ip none in
      let rest = erase anonymous_key m.clients in
      elim (Bool-cases (is_some (truthy mac))) [
        | inl e ↦ rw e (
            omega (
              arith,
              total-erase f anonymous_key m.clients,
              tally-or_new ip mac now (lookup key rest),
              tally-merge_found (or_new (new_client ip mac now) (lookup key rest))
                  (lookup anonymous_key m.clients),
            ))
        | inr e ↦ rw e (omega (arith, tally-or_new ip none now (lookup key m.clients)))
      ]

  -- The table gains what the request adds to its client, before it is trimmed.
  total-touch :
      (ip : Text) (mac : Option Text) (path : Text) (now n : ℕ) (m : Monitor)
      → ((c : Client) → f (seen_again ip mac path now c) ≡ f c + n)
      → let (client, clients, active) = identify ip mac now m in
        total f (insert_last (client_key ip mac) (seen_again ip mac path now client) clients)
        ≡ total f m.clients + n
  total-touch ip mac path now n m h =
      let (client, clients, active) = identify ip mac now m in
      omega (
        arith,
        h client,
        total-identify ip mac now m,
        total-insert_last f (client_key ip mac) (seen_again ip mac path now client) clients,
      )

  pub total-touch_client :
      (ip : Text) (mac : Option Text) (path : Text) (now n : ℕ) (m : Monitor)
      → ((c : Client) → f (seen_again ip mac path now c) ≡ f c + n)
      → total f (touch_client ip mac path now m).clients ≤ total f m.clients + n
  unfolding touch_client
  total-touch_client ip mac path now n m h =
      let (client, clients, active) = identify ip mac now m in
      let seen = seen_again ip mac path now client in
      omega (
        arith,
        total-touch ip mac path now n m h,
        sum_by-trim (λ (e : Text × Client). f e.1) m.max_clients
            (insert_last (client_key ip mac) seen clients),
      )

pub requests-seen_again :
    (ip : Text) (mac : Option Text) (path : Text) (now : ℕ) (c : Client)
    → (seen_again ip mac path now c).requests ≡ c.requests + 1
unfolding seen_again
requests-seen_again ip mac path now c = refl

pub boots-seen_again :
    (ip : Text) (mac : Option Text) (path : Text) (now : ℕ) (c : Client)
    → (seen_again ip mac path now c).boots ≡ c.boots + 0
unfolding seen_again
boots-seen_again ip mac path now c = omega arith

pub bytes_sent-seen_again :
    (ip : Text) (mac : Option Text) (path : Text) (now : ℕ) (c : Client)
    → (seen_again ip mac path now c).bytes_sent ≡ c.bytes_sent + 0
unfolding seen_again
bytes_sent-seen_again ip mac path now c = omega arith

pub length-identify :
    (ip : Text) (mac : Option Text) (now : ℕ) (m : Monitor)
    → length (identify ip mac now m).1 ≤ length m.clients
unfolding identify
length-identify ip mac now m = elim (Bool-cases (is_some (truthy mac))) [
  | inl e ↦ rw e (omega (arith, length-erase (client_key ip none) m.clients))
  | inr e ↦ rw e (omega arith)
]

-- Where the table has room for one more client, a request adds one to the requests that its clients
-- gathered, and nothing is lost.
pub total-touch_client_exact :
    (ip : Text) (mac : Option Text) (path : Text) (now : ℕ) (m : Monitor)
    → length m.clients < m.max_clients
    → (total (λ c. c.requests) (touch_client ip mac path now m).clients
        ≡ total (λ c. c.requests) m.clients + 1)
      × (total (λ c. c.boots) (touch_client ip mac path now m).clients
          ≡ total (λ c. c.boots) m.clients)
      × (total (λ c. c.bytes_sent) (touch_client ip mac path now m).clients
          ≡ total (λ c. c.bytes_sent) m.clients)
unfolding touch_client insert_last
total-touch_client_exact ip mac path now m room =
    let (client, clients, active) = identify ip mac now m in
    let key = client_key ip mac in
    let seen = seen_again ip mac path now client in
    let fits : length (insert_last key seen clients) ≤ m.max_clients = omega (
      arith,
      length-append (erase key clients) ((key, seen) ∷ []),
      length-erase key clients,
      length-identify ip mac now m,
    ) in
    let whole = trim_of_le m.max_clients (insert_last key seen clients) fits in
    let sums = λ (f : Client → ℕ) (t : IsTally f) (n : ℕ). total-touch f t ip mac path now n m in
    (
      rw whole (sums (λ c. c.requests) requests-IsTally 1 (requests-seen_again ip mac path now)),
      rw whole
          (omega (arith, sums (λ c. c.boots) boots-IsTally 0 (boots-seen_again ip mac path now))),
      rw whole (
          omega (
            arith,
            sums (λ c. c.bytes_sent) bytes_sent-IsTally 0 (bytes_sent-seen_again ip mac path now),
          )),
    )
