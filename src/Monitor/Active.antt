-- ===== src/Monitor/Active.antt =====
-- The table of requests in flight: identifiers stay distinct and below the next one, whatever the
-- client table does to the requests.
use thinclient.Prelude.{
  ℕ, suc, ◌≤◌, ◌<◌, ◌≡◌, ◌≢◌, refl, ap, Option, none, some, [], ◌∷◌, ◌++◌, arith, length, is_some,
  Every, Every-map, compare_texts, compare_numbers, Bool-cases, inl, inr,
}
use thinclient.Text.{Text}
use thinclient.Dict.{Dict, lookup, insert}
use thinclient.Dict.Laws.{total, Lacks, Unique}
use thinclient.Monitor.{Client, ActiveRequest, Monitor, truthy}
use thinclient.Monitor.Clients.{client_key, rekey, rekey_found, identify, touch_client}

abbrev pub Below : ℕ → Dict ℕ ActiveRequest → Type 0
Below n d = Every (λ e. e.0 < n) d

abbrev pub bytes_in_flight : Dict ℕ ActiveRequest → ℕ
bytes_in_flight d = total (λ r. r.bytes_sent) d

-- every request is filed under its own identifier
abbrev pub Filed : Dict ℕ ActiveRequest → Type 0
Filed d = Every (λ e. e.1.id ≡ e.0) d

-- two tables with the same identifiers, in the same order, and the same bytes sent for each
pub record SameTransfers (d d' : Dict ℕ ActiveRequest) : Type 0 where
  pub same_length : length d' ≡ length d
  pub same_bytes : bytes_in_flight d' ≡ bytes_in_flight d
  pub same_below : (n : ℕ) → Below n d → Below n d'
  pub same_lacks : (n : ℕ) → Lacks n d → Lacks n d'
  pub same_unique : Unique d → Unique d'
  pub same_filed : Filed d → Filed d'

SameTransfers-refl : (d : Dict ℕ ActiveRequest) → SameTransfers d d
SameTransfers-refl d = record {
  same_length = refl;
  same_bytes = refl;
  same_below = λ n h. h;
  same_lacks = λ n h. h;
  same_unique = λ h. h;
  same_filed = λ h. h;
}

module _ (anonymous_key key : Text) (mac : Option Text) where
  length-rekey : (d : Dict ℕ ActiveRequest) → length (rekey anonymous_key key mac d) ≡ length d
  unfolding rekey
  length-rekey [] = refl
  length-rekey ((id, r) ∷ d) = ap suc (length-rekey d)

  bytes-rekey :
      (d : Dict ℕ ActiveRequest)
      → bytes_in_flight (rekey anonymous_key key mac d) ≡ bytes_in_flight d
  unfolding rekey
  bytes-rekey [] = refl
  bytes-rekey ((id, r) ∷ d) = ground (arith, bytes-rekey d)

  Below-rekey :
      (n : ℕ) (d : Dict ℕ ActiveRequest) → Below n d → Below n (rekey anonymous_key key mac d)
  unfolding rekey
  Below-rekey n [] h = tt
  Below-rekey n ((id, r) ∷ d) h = (h.0, Below-rekey n d h.1)

  Lacks-rekey :
      (n : ℕ) (d : Dict ℕ ActiveRequest) → Lacks n d → Lacks n (rekey anonymous_key key mac d)
  unfolding rekey
  Lacks-rekey n [] h = tt
  Lacks-rekey n ((id, r) ∷ d) h = (h.0, Lacks-rekey n d h.1)

  Unique-rekey : (d : Dict ℕ ActiveRequest) → Unique d → Unique (rekey anonymous_key key mac d)
  unfolding rekey
  Unique-rekey [] h = tt
  Unique-rekey ((id, r) ∷ d) h = (Lacks-rekey id d h.0, Unique-rekey d h.1)

  Filed-rekey : (d : Dict ℕ ActiveRequest) → Filed d → Filed (rekey anonymous_key key mac d)
  unfolding rekey
  Filed-rekey [] h = tt
  Filed-rekey ((id, r) ∷ d) h = (ground (arith, h.0), Filed-rekey d h.1)

  rekey-SameTransfers : (d : Dict ℕ ActiveRequest) → SameTransfers d (rekey anonymous_key key mac d)
  rekey-SameTransfers d = record {
    same_length = length-rekey d;
    same_bytes = bytes-rekey d;
    same_below = λ n. Below-rekey n d;
    same_lacks = λ n. Lacks-rekey n d;
    same_unique = Unique-rekey d;
    same_filed = Filed-rekey d;
  }

  rekey_found-SameTransfers :
      (o : Option Client) (d : Dict ℕ ActiveRequest)
      → SameTransfers d (rekey_found o anonymous_key key mac d)
  rekey_found-SameTransfers none d = SameTransfers-refl d
  rekey_found-SameTransfers (some c) d = rekey-SameTransfers d

identify-SameTransfers :
    (ip : Text) (mac : Option Text) (now : ℕ) (m : Monitor)
    → SameTransfers m.active (identify ip mac now m).2
unfolding identify
identify-SameTransfers ip mac now m = elim (Bool-cases (is_some (truthy mac))) [
  | inl e ↦ rw e (
      rekey_found-SameTransfers (client_key ip none) (client_key ip mac) mac
        (lookup (client_key ip none) m.clients) m.active)
  | inr e ↦ rw e (SameTransfers-refl m.active)
]

pub touch_client-SameTransfers :
    (ip : Text) (mac : Option Text) (path : Text) (now : ℕ) (m : Monitor)
    → SameTransfers m.active (touch_client ip mac path now m).active
unfolding touch_client
touch_client-SameTransfers ip mac path now m = identify-SameTransfers ip mac now m

pub insert_of_Lacks :
    (id : ℕ) (r : ActiveRequest) (d : Dict ℕ ActiveRequest)
    → Lacks id d
    → insert id r d ≡ d ++ (id, r) ∷ []
unfolding insert
insert_of_Lacks id r [] h = refl
insert_of_Lacks id r ((j, q) ∷ d) h = ground (arith, insert_of_Lacks id r d h.1)

pub Lacks-of_Below : (n : ℕ) (d : Dict ℕ ActiveRequest) → Below n d → Lacks n d
Lacks-of_Below n d = Every-map (λ e. e.0 < n) (λ e. e.0 ≢ n) d (λ e h. omega arith)

pub Below-mono : (n k : ℕ) (d : Dict ℕ ActiveRequest) → n ≤ k → Below n d → Below k d
Below-mono n k d le = Every-map (λ e. e.0 < n) (λ e. e.0 < k) d (λ e h. omega arith)
