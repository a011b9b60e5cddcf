-- ===== src/Diagnostics/Resolved.antt =====
-- The addresses that a name is resolved to.
use thinclient.Prelude.{
  ◌≤◌, ◌≡◌, refl, sym, ap, subst, Bool, true, false, not, ◌&&◌, Option, none, some, List, [], ◌∷◌,
  ◌++◌, any, arith, nat_eq, length, length-append, if_elim, Bool-cases, inl, inr, Every,
  Every-append, ◌==◌, compare_texts, equal_refl, equal_iff, Option-cases, ◌<◌,
}
use thinclient.Text.{Text, is_empty, strip}
use thinclient.Command.Failure.{lines_from}
use thinclient.Diagnostics.{Names, Network, Ran, ran, timed_out, not_run}
use thinclient.Diagnostics.Endpoint.{words_from}
use thinclient.Diagnostics.Checks.{
  with_address, first_address, gather, max_addresses, resolved_to, looked_up, resolve, Resolved,
  check_dns,
}

abbrev IsAddress : Names → Text → Type 0
IsAddress net a = (s : Text) × (net.ip_address s ≡ some a)

-- none twice
abbrev pub AreDistinct : List Text → Type 0
AreDistinct [] = Unit
AreDistinct (a ∷ others) = (any (λ b. b == a) others ≡ false) × AreDistinct others

-- a few addresses, each once
pub record AreFew (net : Names) (found : List Text) : Type 0 where
  pub spelt : Every (IsAddress net) found
  pub distinct : AreDistinct found
  pub few : length found ≤ max_addresses

any-append_false :
    (found : List Text) (a b : Text)
    → any (λ x. x == b) found ≡ false
    → (a == b) ≡ false
    → any (λ x. x == b) (found ++ a ∷ []) ≡ false
any-append_false [] a b h e = ground (arith, e)
any-append_false (x ∷ found) a b h e =
    ground (arith, h, e, any-append_false found a b (ground (arith, h)) e)

AreDistinct-append :
    (found : List Text) (a : Text)
    → AreDistinct found
    → any (λ b. b == a) found ≡ false
    → AreDistinct (found ++ a ∷ [])
AreDistinct-append [] a h e = (refl, tt)
AreDistinct-append (x ∷ found) a h e = (
  any-append_false found a x h.0 (swapped a x (ground (arith, e))),
  AreDistinct-append found a h.1 (ground (arith, e)),
)
  where
    swapped : (a x : Text) → (x == a) ≡ false → (a == x) ≡ false
    swapped a x h = elim (Bool-cases (a == x)) [
      | inl e ↦
          absurd (ground (arith, h, ap (λ t. t == a) (sym ((equal_iff a x).0 e)), equal_refl a))
      | inr e ↦ e
    ]

first_address-IsAddress :
    (net : Names) (fields : List Text) (a : Text)
    → first_address net fields ≡ some a
    → IsAddress net a
first_address-IsAddress net [] a h = absurd (ground (arith, h))
first_address-IsAddress net (field ∷ fields) a h = (field, h)

with_address-AreFew :
    (net : Names) (found : List Text) (a : Text)
    → AreFew net found
    → length found < max_addresses
    → IsAddress net a
    → AreFew net (with_address a found)
with_address-AreFew net found a h small spelt = elim (Bool-cases (any (λ b. b == a) found)) [
  | inl e ↦ rw e h
  | inr e ↦ rw e (record {
    spelt = Every-append (IsAddress net) found (a ∷ []) h.spelt (spelt, tt);
    distinct = AreDistinct-append found a h.distinct e;
    few = omega (arith, length-append found (a ∷ []));
  })
]

below_limit :
    (found : List Text)
    → length found ≤ max_addresses
    → nat_eq (length found) max_addresses ≡ false
    → length found < max_addresses
below_limit found h e = ground (arith, h, e)

gather-end : (net : Names) (found : List Text) → found ≡ gather net found []
unfolding gather
gather-end net found = refl

-- the cases of one line
gather-none :
    (net : Names) (found : List Text) (line : Text) (lines : List Text)
    → first_address net (words_from [] line) ≡ none
    → gather net found (line ∷ lines) ≡ gather net found lines
unfolding gather
gather-none net found line lines e = ground (arith, e)

gather-full :
    (net : Names) (found : List Text) (line : Text) (lines : List Text) (a : Text)
    → first_address net (words_from [] line) ≡ some a
    → nat_eq (length (with_address a found)) max_addresses ≡ true
    → gather net found (line ∷ lines) ≡ with_address a found
unfolding gather
gather-full net found line lines a e q = ground (arith, e, q)

gather-more :
    (net : Names) (found : List Text) (line : Text) (lines : List Text) (a : Text)
    → first_address net (words_from [] line) ≡ some a
    → nat_eq (length (with_address a found)) max_addresses ≡ false
    → gather net found (line ∷ lines) ≡ gather net (with_address a found) lines
unfolding gather
gather-more net found line lines a e q = ground (arith, e, q)

gather-AreFew :
    (net : Names) (found lines : List Text)
    → AreFew net found
    → length found < max_addresses
    → AreFew net (gather net found lines)
gather-AreFew net found [] h small = subst (AreFew net) (gather-end net found) h
gather-AreFew net found (line ∷ lines) h small =
    elim (Option-cases (first_address net (words_from [] line))) [
      | inl e ↦ rw (gather-none net found line lines e) (gather-AreFew net found lines h small)
      | inr (a, e) ↦
          let more =
            with_address-AreFew net found a h small
              (first_address-IsAddress net (words_from [] line) a e) in
          elim (Bool-cases (nat_eq (length (with_address a found)) max_addresses)) [
            | inl q ↦ rw (gather-full net found line lines a e q) more
            | inr q ↦ rw (gather-more net found line lines a e q) (
                gather-AreFew net (with_address a found) lines more
                  (below_limit (with_address a found) more.few q))
          ]
    ]

abbrev pub no_address : List Text → Bool
no_address [] = true
no_address (_ ∷ _) = false

-- a lookup that succeeded has an address, and one that failed has none
pub record IsResolved (net : Names) (r : Resolved) : Type 0 where
  pub addresses : AreFew net r.1
  pub some_address : r.0.ok ≡ not (no_address r.1)

none_found : (net : Names) → AreFew net []
none_found net = record { spelt = tt; distinct = tt; few = ground arith }

resolved_to-IsResolved :
    (net : Names) (stderr : Text) (found : List Text)
    → AreFew net found
    → IsResolved net (resolved_to stderr found)
resolved_to-IsResolved net stderr [] h = record { addresses = h; some_address = refl }
resolved_to-IsResolved net stderr (a ∷ found) h = record { addresses = h; some_address = refl }

looked_up-IsResolved : (net : Names) (r : Ran) → IsResolved net (looked_up net r)
looked_up-IsResolved net (ran success stdout stderr) = resolved_to-IsResolved net stderr _ (
    if_elim (AreFew net) (success && not (is_empty (strip stdout)))
      (λ e. gather-AreFew net [] (lines_from false [] stdout) (none_found net) (ground arith))
      (λ e. none_found net))
looked_up-IsResolved net timed_out = record { addresses = none_found net; some_address = refl }
looked_up-IsResolved net (not_run message class) = record {
  addresses = none_found net;
  some_address = refl;
}

resolve-IsResolved :
    (net : Names) (host : Text) (a : Option Text) (r : Ran)
    → net.ip_address host ≡ a
    → IsResolved net (resolve a net r)
resolve-IsResolved net host none r h = looked_up-IsResolved net r
resolve-IsResolved net host (some a) r h = record {
  addresses = record { spelt = ((host, h), tt); distinct = (refl, tt); few = ground arith };
  some_address = refl;
}

-- A lookup succeeds exactly where it has an address; it has at most eight, no two of them the same,
-- and each is one that `ipaddress` read and spelt, whatever the resolver wrote.
pub check_dns-IsResolved : (net : Network) (host : Text) → IsResolved net.names (check_dns net host)
unfolding check_dns
check_dns-IsResolved net host = resolve-IsResolved net.names host (net.names.ip_address host) _ refl
