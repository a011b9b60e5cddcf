-- ===== src/Monitor/Takeover.antt =====
-- `_touch_client` at the entry of the client: what an identified device takes over from its address.
use thinclient.Prelude.{
  ℕ, ◌+◌, ◌<◌, ◌≡◌, ◌≢◌, refl, ap, ◌∙◌, true, false, Option, none, some, [], ◌∷◌, arith, length,
  is_some, compare_texts, compare_numbers, Bool-cases, inl, inr, length-append, if◌then◌else◌,
  equal_iff,
}
use thinclient.Text.{Text}
use thinclient.Dict.{Dict, lookup, erase, insert_last}
use thinclient.Dict.Laws.{
  worth, total, Unique, Lacks-erase, Lacks-erase_self, Unique-erase, lookup-of_Lacks, lookup-append,
  length-erase, trim_of_le,
}
use thinclient.Monitor.{Client, Monitor, truthy}
use thinclient.Monitor.Clients.{client_key, new_client, or_new, identify, seen_again, touch_client}
use thinclient.Monitor.Ledger.{
  IsTally, requests-IsTally, boots-IsTally, bytes_sent-IsTally, tally-or_new, tally-merge_found,
  requests-seen_again, boots-seen_again, bytes_sent-seen_again, length-identify,
  total-touch_client_exact,
}

lookup-erase_other : (i k : Text) (d : Dict Text Client) → i ≢ k → lookup i (erase k d) ≡ lookup i d
unfolding lookup erase
lookup-erase_other i k [] h = refl
lookup-erase_other i k ((j, v) ∷ d) h =
    ground (arith, equal_iff j k, equal_iff j i, lookup-erase_other i k d h)

lookup-insert_last :
    (k : Text) (v : Client) (d : Dict Text Client)
    → Unique d
    → lookup k (insert_last k v d) ≡ some v
unfolding insert_last lookup
lookup-insert_last k v d u =
    lookup-append k (erase k d) ((k, v) ∷ [])
    ∙ rw (lookup-of_Lacks k (erase k d) (Lacks-erase_self k d u)) (rw ((equal_iff k k).1 refl) refl)

lookup-insert_last_erased :
    (i k : Text) (v : Client) (d : Dict Text Client)
    → Unique d
    → k ≢ i
    → lookup i (insert_last k v (erase i d)) ≡ none
unfolding insert_last lookup
lookup-insert_last_erased i k v d u h =
    lookup-append i (erase k (erase i d)) ((k, v) ∷ [])
    ∙ rw
        (lookup-of_Lacks i (erase k (erase i d))
          (Lacks-erase i k (erase i d) (Lacks-erase_self i d u)))
        (ground (arith, equal_iff k i, h))

keys_apart :
    (ip : Text) (mac : Option Text)
    → is_some (truthy mac) ≡ true
    → client_key ip mac ≢ client_key ip none
unfolding client_key
keys_apart ip none h e = ground (arith, h)
keys_apart ip (some []) h e = ground (arith, h)
keys_apart ip (some (c ∷ mac)) h e = ground (arith, e)

-- what the client of a request had gathered: its own count, and that of its address if it names itself
abbrev pub gathered : (Client → ℕ) → Text → Option Text → Dict Text Client → ℕ
gathered f ip mac d =
    worth f (lookup (client_key ip mac) d)
    + (if is_some (truthy mac) then worth f (lookup (client_key ip none) d) else 0)

module _ (f : Client → ℕ) (tally : IsTally f) where
  gathered-identify :
      (ip : Text) (mac : Option Text) (now : ℕ) (m : Monitor)
      → f (identify ip mac now m).0 ≡ gathered f ip mac m.clients
  unfolding identify
  gathered-identify ip mac now m = elim (Bool-cases (is_some (truthy mac))) [
    | inl e ↦
        let key = client_key ip mac in
        let anonymous_key = client_key ip none in
        let same = lookup-erase_other key anonymous_key m.clients (keys_apart ip mac e) in
        rw e (
          omega (
            arith,
            tally-merge_found f tally
                (or_new (new_client ip mac now) (lookup key (erase anonymous_key m.clients)))
                (lookup anonymous_key m.clients),
            tally-or_new f tally ip mac now (lookup key (erase anonymous_key m.clients)),
            ap (worth f) same,
          ))
    | inr e ↦
        rw e
          (omega (arith, tally-or_new f tally ip none now (lookup (client_key ip mac) m.clients)))
  ]

clients-touch_client :
    (ip : Text) (mac : Option Text) (path : Text) (now : ℕ) (m : Monitor)
    → length m.clients < m.max_clients
    → (touch_client ip mac path now m).clients
      ≡ insert_last
          (client_key ip mac)
          (seen_again ip mac path now (identify ip mac now m).0)
          (identify ip mac now m).1
unfolding touch_client insert_last
clients-touch_client ip mac path now m room =
    let (client, clients, active) = identify ip mac now m in
    let key = client_key ip mac in
    let seen = seen_again ip mac path now client in
    trim_of_le m.max_clients (insert_last key seen clients) (
      omega (
        arith,
        length-append (erase key clients) ((key, seen) ∷ []),
        length-erase key clients,
        length-identify ip mac now m,
      ))

same_key :
    (ip : Text) (mac : Option Text)
    → is_some (truthy mac) ≡ false
    → client_key ip mac ≡ client_key ip none
unfolding client_key
same_key ip none h = refl
same_key ip (some []) h = refl
same_key ip (some (c ∷ mac)) h = absurd (ground (arith, h))

-- the client's entry after the request
pub record TakesOver (ip : Text) (mac : Option Text) (old new : Dict Text Client) : Type 0 where
  pub entry : Client
  pub found : lookup (client_key ip mac) new ≡ some entry
  pub requests : entry.requests ≡ gathered (λ c. c.requests) ip mac old + 1
  pub boots : entry.boots ≡ gathered (λ c. c.boots) ip mac old
  pub bytes_sent : entry.bytes_sent ≡ gathered (λ c. c.bytes_sent) ip mac old
  pub address :
      lookup (client_key ip none) new ≡ (if is_some (truthy mac) then none else some entry)

address_entry :
    (ip : Text) (mac : Option Text) (now : ℕ) (m : Monitor) (seen : Client)
    → Unique m.clients
    → (lookup (client_key ip mac) (insert_last (client_key ip mac) seen (identify ip mac now m).1)
        ≡ some seen)
      × (lookup
            (client_key ip none)
            (insert_last (client_key ip mac) seen (identify ip mac now m).1)
          ≡ (if is_some (truthy mac) then none else some seen))
unfolding identify
address_entry ip mac now m seen u =
    let key = client_key ip mac in
    let anonymous_key = client_key ip none in
    elim (Bool-cases (is_some (truthy mac))) [
      | inl e ↦ rw e (
        lookup-insert_last key seen (erase anonymous_key m.clients)
            (Unique-erase anonymous_key m.clients u),
        lookup-insert_last_erased anonymous_key key seen m.clients u (keys_apart ip mac e),
      )
      | inr e ↦ rw e (
        lookup-insert_last key seen m.clients u,
        rw (← same_key ip mac e) (lookup-insert_last key seen m.clients u),
      )
    ]

-- Where the table has room for one more client and no key twice, a request enters the entry of its
-- client: the entry has one request more, and as many boots and bytes, as it had together with the
-- entry of its address, which an identified device takes over and which is gone after it; and the
-- whole table has gathered one request more and as many boots and bytes as before.
pub touch_client-TakesOver :
    (ip : Text) (mac : Option Text) (path : Text) (now : ℕ) (m : Monitor)
    → length m.clients < m.max_clients
    → Unique m.clients
    → TakesOver ip mac m.clients (touch_client ip mac path now m).clients
      × (total (λ c. c.requests) (touch_client ip mac path now m).clients
          ≡ total (λ c. c.requests) m.clients + 1)
      × (total (λ c. c.boots) (touch_client ip mac path now m).clients
          ≡ total (λ c. c.boots) m.clients)
      × (total (λ c. c.bytes_sent) (touch_client ip mac path now m).clients
          ≡ total (λ c. c.bytes_sent) m.clients)
touch_client-TakesOver ip mac path now m room u =
    let (requests, boots, bytes_sent) = total-touch_client_exact ip mac path now m room in
    let seen = seen_again ip mac path now (identify ip mac now m).0 in
    let (own, address) = address_entry ip mac now m seen u in
    let whole = clients-touch_client ip mac path now m room in
    let known = λ (f : Client → ℕ) (t : IsTally f). gathered-identify f t ip mac now m in
    (
      record {
        entry = seen;
        found = rw whole own;
        requests =
            requests-seen_again ip mac path now (identify ip mac now m).0
            ∙ ap (λ n. n + 1) (known (λ c. c.requests) requests-IsTally);
        boots = omega (
          arith,
          boots-seen_again ip mac path now (identify ip mac now m).0,
          known (λ c. c.boots) boots-IsTally,
        );
        bytes_sent = omega (
          arith,
          bytes_sent-seen_again ip mac path now (identify ip mac now m).0,
          known (λ c. c.bytes_sent) bytes_sent-IsTally,
        );
        address = rw whole address;
      },
      requests,
      boots,
      bytes_sent,
    )
