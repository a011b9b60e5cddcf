-- ===== src/Monitor/Restore.antt =====
-- Reading the requests in flight and the clients back from a state document.
use thinclient.Prelude.{
  ℕ, suc, ◌+◌, ◌-◌, ◌≤◌, ◌<◌, ◌≡◌, ◌≢◌, refl, sym, ap, ◌∙◌, List, [], ◌∷◌, ◌++◌, arith, length,
  compare_texts, compare_numbers, Every, append-nil, append_assoc, Every-append, length-drop,
  sum_by-drop,
}
use thinclient.Text.{Text}
use thinclient.Dict.{Dict, insert}
use thinclient.Dict.Laws.{total, Lacks, Unique}
use thinclient.Monitor.{Client, SavedRequest, ActiveRequest}
use thinclient.Monitor.Durable.{saved_requests, load_clients, load_active, last_items}
use thinclient.Monitor.Active.{bytes_in_flight, Filed}
use thinclient.Monitor.Recovery.{saved_bytes}

-- the table of the requests in flight, as the document keeps them
abbrev pub saved_table : Dict ℕ ActiveRequest → Dict ℕ SavedRequest
saved_table [] = []
saved_table ((id, r) ∷ d) = (id, r.saved) ∷ saved_table d

pub length-saved_table : (d : Dict ℕ ActiveRequest) → length (saved_table d) ≡ length d
length-saved_table [] = refl
length-saved_table ((id, r) ∷ d) = ap suc (length-saved_table d)

pub bytes-saved_table : (d : Dict ℕ ActiveRequest) → saved_bytes (saved_table d) ≡ bytes_in_flight d
bytes-saved_table [] = refl
bytes-saved_table ((id, r) ∷ d) = omega (arith, bytes-saved_table d)

pub length-saved_requests : (d : Dict ℕ ActiveRequest) → length (saved_requests d) ≡ length d
unfolding saved_requests
length-saved_requests [] = refl
length-saved_requests ((id, r) ∷ d) = ap suc (length-saved_requests d)

insert_new :
    (id i : ℕ) (r : SavedRequest) (d : Dict ℕ SavedRequest)
    → i ≡ id
    → Lacks id d
    → insert i r d ≡ d ++ (id, r) ∷ []
unfolding insert
insert_new id i r [] e h = ap (λ j. (j, r) ∷ []) e
insert_new id i r ((j, q) ∷ d) e h = ground (arith, insert_new id i r d e h.1)

abbrev pub Apart : Dict ℕ ActiveRequest → Dict ℕ SavedRequest → Type 0
Apart d loaded = Every (λ e. Lacks e.0 loaded) d

pub Apart-nil : (d : Dict ℕ ActiveRequest) → Apart d []
Apart-nil [] = tt
Apart-nil (e ∷ d) = (tt, Apart-nil d)

-- Requests that are filed under distinct identifiers are read back one for one.
pub load_active-saved_requests :
    (loaded : Dict ℕ SavedRequest) (d : Dict ℕ ActiveRequest)
    → Filed d
    → Unique d
    → Apart d loaded
    → load_active loaded (saved_requests d) ≡ loaded ++ saved_table d
unfolding load_active saved_requests
load_active-saved_requests loaded [] f u a = sym (append-nil loaded)
load_active-saved_requests loaded ((id, r) ∷ d) f u a =
    let entered : insert r.saved.id r.saved loaded ≡ loaded ++ (id, r.saved) ∷ [] =
      insert_new id r.id r.saved loaded f.0 a.0 in
    let apart : Apart d (loaded ++ (id, r.saved) ∷ []) = apart_snoc d u.0 a.1 in
    ap (λ l. load_active l (saved_requests d)) entered
    ∙ load_active-saved_requests (loaded ++ (id, r.saved) ∷ []) d f.1 u.1 apart
    ∙ append_assoc loaded ((id, r.saved) ∷ []) (saved_table d)
  where
    apart_snoc :
        (d' : Dict ℕ ActiveRequest)
        → Lacks id d'
        → Apart d' loaded
        → Apart d' (loaded ++ (id, r.saved) ∷ [])
    apart_snoc [] l a' = tt
    apart_snoc ((j, q) ∷ d') l a' =
        (Every-append (λ e. e.0 ≢ j) loaded _ a'.0 ((λ p. l.0 (sym p)), tt), apart_snoc d' l.1 a'.1)

-- reading clients back makes no new ones and no larger sums
length-insert_le :
    (k : Text) (v : Client) (d : Dict Text Client) → length (insert k v d) ≤ length d + 1
unfolding insert
length-insert_le k v [] = omega arith
length-insert_le k v ((j, w) ∷ d) = ground (arith, length-insert_le k v d)

total-insert_le :
    (f : Client → ℕ) (k : Text) (v : Client) (d : Dict Text Client)
    → total f (insert k v d) ≤ total f d + f v
unfolding insert
total-insert_le f k v [] = omega arith
total-insert_le f k v ((j, w) ∷ d) = ground (arith, total-insert_le f k v d)

pub length-load_clients :
    (d : Dict Text Client) (xs : List (Text × Client))
    → length (load_clients d xs) ≤ length d + length xs
unfolding load_clients
length-load_clients d [] = omega arith
length-load_clients d ((k, c) ∷ xs) =
    omega (arith, length-load_clients (insert k c d) xs, length-insert_le k c d)

pub total-load_clients :
    (f : Client → ℕ) (d : Dict Text Client) (xs : List (Text × Client))
    → total f (load_clients d xs) ≤ total f d + total f xs
unfolding load_clients
total-load_clients f d [] = omega arith
total-load_clients f d ((k, c) ∷ xs) =
    omega (arith, total-load_clients f (insert k c d) xs, total-insert_le f k c d)

pub length-last_items : (n : ℕ) (xs : List (Text × Client)) → 0 < n → length (last_items n xs) ≤ n
length-last_items n xs h = ground (arith, length-drop (length xs - n) xs)

pub total-last_items :
    (f : Client → ℕ) (n : ℕ) (xs : List (Text × Client)) → total f (last_items n xs) ≤ total f xs
total-last_items f n xs =
    ground (arith, sum_by-drop (λ (e : Text × Client). f e.1) (length xs - n) xs)
