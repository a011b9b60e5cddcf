-- ===== src/Diagnostics/Valid.antt =====
-- Which endpoints the diagnostics accept.
use thinclient.Prelude.{
  ℕ, ◌≤◌, ◌≡◌, refl, sym, Bool, true, false, not, ◌&&◌, ◌||◌, Option, none, some, [], ◌∷◌, any,
  arith, leb, ltb, nat_eq, length, if◌then◌else◌, if_elim, subst, ℤ, pos, negsuc, ◌⊎◌, inl, inr,
  ◌==◌, compare_texts,
}
use thinclient.Text.{Text, codes, is_empty, strip, contains_char, int_of_text}
use thinclient.Config.{Connection}
use thinclient.Command.Failure.{occurs}
use thinclient.Command.Rdp.{setting_or}
use thinclient.Diagnostics.{Names}
use thinclient.Diagnostics.Endpoint.{
  Endpoint, endpoint, invalid, isdigit, is_hostname, without_dots, encoded_host, lowered, host_name,
  at_host, check_endpoint, cut_at, with_port, bracket_suffix, bracketed_host, plain_host, split_raw,
  is_url_char, split_endpoint, Target, Normalized, normalized, unusable, contacted, configured,
  normalize_target,
}

-- an address as `ipaddress` spells it, or a host name
abbrev pub IsHost : Names → Text → Type 0
IsHost net host = ((s : Text) × (net.ip_address s ≡ some host)) ⊎ (is_hostname host ≡ true)

-- the default port unless another may stand in the text
abbrev pub IsPort : ℕ → Bool → ℕ → Type 0
IsPort default_port true port = (1 ≤ port) × (port ≤ 65535)
IsPort default_port false port = (1 ≤ port) × (port ≤ 65535) × (port ≡ default_port)

abbrev pub IsEndpoint : Names → ℕ → Bool → Endpoint → Type 0
IsEndpoint net default_port embedded (endpoint host port) =
    IsHost net host × IsPort default_port embedded port
IsEndpoint net default_port embedded (invalid message) = Unit

at_host-IsEndpoint :
    (net : Names) (default_port : ℕ) (embedded : Bool) (host : Text) (port : ℕ) (a : Option Text)
    → net.ip_address host ≡ a
    → IsPort default_port embedded port
    → IsEndpoint net default_port embedded (at_host (host_name a net host) port)
at_host-IsEndpoint net d b host port (some a) h p = (inl (host, h), p)
at_host-IsEndpoint net d b host port none h p = encoded (lowered (net.idna (without_dots host)))
  where
    encoded : (o : Option Text) → IsEndpoint net d b (at_host (encoded_host o) port)
    encoded none = tt
    encoded (some name) =
        if_elim {A = Option Text} (λ o. IsEndpoint net d b (at_host o port)) (is_hostname name)
          (λ e. (inr e, p)) (λ e. tt)

in_range : (port : ℕ) → (leb 1 port && leb port 65535) ≡ true → (1 ≤ port) × (port ≤ 65535)
in_range port e = ground (arith, e)

check_endpoint-IsEndpoint :
    (net : Names) (d : ℕ) (b : Bool) (host : Text) (port : ℤ)
    → ((n : ℕ) → port ≡ pos n → (1 ≤ n) × (n ≤ 65535) → IsPort d b n)
    → IsEndpoint net d b (check_endpoint net host port)
unfolding check_endpoint
check_endpoint-IsEndpoint net d b host (negsuc n) f = tt
check_endpoint-IsEndpoint net d b host (pos n) f =
    if_elim {A = Endpoint} (IsEndpoint net d b) (leb 1 n && leb n 65535)
      (λ e. at_host-IsEndpoint net d b host n (net.ip_address host) refl (f n refl (in_range n e)))
      (λ e. tt)

pos_injective : (m n : ℕ) → pos m ≡ pos n → n ≡ m
pos_injective m n h = ground (arith, h)

check_endpoint-default :
    (net : Names) (d : ℕ) (b : Bool) (host : Text)
    → IsEndpoint net d b (check_endpoint net host (pos d))
check_endpoint-default net d true host =
    check_endpoint-IsEndpoint net d true host (pos d) (λ n e r. r)
check_endpoint-default net d false host =
    check_endpoint-IsEndpoint net d false host (pos d) (λ n e r. (r.0, r.1, pos_injective d n e))

with_port-IsEndpoint :
    (net : Names) (d : ℕ) (host digits : Text) (port : Option ℤ)
    → IsEndpoint net d true (with_port net host digits port)
with_port-IsEndpoint net d host digits none = tt
with_port-IsEndpoint net d host digits (some port) =
    check_endpoint-IsEndpoint net d true host port (λ n e r. r)

bracket_suffix-IsEndpoint :
    (net : Names) (d : ℕ) (b : Bool) (host suffix : Text)
    → IsEndpoint net d b (bracket_suffix net d b host suffix)
bracket_suffix-IsEndpoint net d b host [] = check_endpoint-default net d b host
bracket_suffix-IsEndpoint net d false host (c ∷ digits) = tt
bracket_suffix-IsEndpoint net d true host (c ∷ digits) =
    if_elim {A = Endpoint} (IsEndpoint net d true) (nat_eq c b':' && isdigit digits)
      (λ e. with_port-IsEndpoint net d host digits (int_of_text digits)) (λ e. tt)

bracketed_host-IsEndpoint :
    (net : Names) (d : ℕ) (b : Bool) (parts : Option (Text × Text))
    → IsEndpoint net d b (bracketed_host net d b parts)
bracketed_host-IsEndpoint net d b none = tt
bracketed_host-IsEndpoint net d b (some (host, suffix)) =
    if_elim {A = Endpoint} (IsEndpoint net d b) (net.is_ipv6_address host)
      (λ e. bracket_suffix-IsEndpoint net d b host suffix) (λ e. tt)

port_in_text :
    (net : Names) (d : ℕ) (b : Bool) (raw candidate suffix : Text)
    → IsEndpoint net d b (
        if isdigit suffix && b
        then with_port net candidate suffix (int_of_text suffix)
        else if isdigit suffix
        then invalid (codes "put the server port in the Port field")
        else check_endpoint net raw (pos d))
port_in_text net d true raw candidate suffix =
    if_elim {A = Endpoint} (IsEndpoint net d true) (isdigit suffix && true)
      (λ e. with_port-IsEndpoint net d candidate suffix (int_of_text suffix))
      (λ e.
        if_elim {A = Endpoint} (IsEndpoint net d true) (isdigit suffix) (λ q. tt)
          (λ q. check_endpoint-default net d true raw))
port_in_text net d false raw candidate suffix =
    if_elim {A = Endpoint} (IsEndpoint net d false) (isdigit suffix && false)
      (λ e. absurd (ground (arith, e)))
      (λ e.
        if_elim {A = Endpoint} (IsEndpoint net d false) (isdigit suffix) (λ q. tt)
          (λ q. check_endpoint-default net d false raw))

plain_host-IsEndpoint :
    (net : Names) (d : ℕ) (b : Bool) (raw : Text) (parts : Option (Text × Text))
    → IsEndpoint net d b (plain_host net d b raw parts)
plain_host-IsEndpoint net d b raw none = check_endpoint-default net d b raw
plain_host-IsEndpoint net d b raw (some (candidate, suffix)) =
    if_elim {A = Endpoint} (IsEndpoint net d b) (contains_char b':' suffix)
      (λ e. check_endpoint-default net d b raw) (λ e. port_in_text net d b raw candidate suffix)

split_raw-IsEndpoint :
    (net : Names) (d : ℕ) (b : Bool) (raw : Text) → IsEndpoint net d b (split_raw net d b raw)
split_raw-IsEndpoint net d b [] = check_endpoint-default net d b []
split_raw-IsEndpoint net d b (c ∷ rest) =
    if_elim {A = Endpoint} (IsEndpoint net d b) (nat_eq c b'[')
      (λ e. bracketed_host-IsEndpoint net d b (cut_at b']' rest))
      (λ e. plain_host-IsEndpoint net d b (c ∷ rest) (cut_at b':' (c ∷ rest)))

pub split_endpoint-IsEndpoint :
    (net : Names) (d : ℕ) (b : Bool) (value : Text)
    → IsEndpoint net d b (split_endpoint net d b value)
unfolding split_endpoint
split_endpoint-IsEndpoint net d b value =
    let raw = strip value in
    if_elim {A = Endpoint} (IsEndpoint net d b)
      (is_empty raw || ltb 253 (length raw) || any (λ c. ltb c 33) raw) (λ e. tt)
      (λ e.
        if_elim {A = Endpoint} (IsEndpoint net d b)
          (occurs (codes "://") raw || any is_url_char raw) (λ q. tt)
          (λ q. split_raw-IsEndpoint net d b raw))

-- What holds of the target of a connection: the host and the port that the connection names, which
-- its Host and Port fields say, whether they lie behind a gateway, and the host and the port that are
-- contacted, which the Gateway field says if they do.
pub record IsTarget (net : Names) (c : Connection) (t : Target) : Type 0 where
  pub host : IsHost net t.target_host
  pub port : (1 ≤ t.target_port) × (t.target_port ≤ 65535)
  pub named_host : IsHost net t.configured_host
  pub named_port : (1 ≤ c.port) × (c.port ≤ 65535) × (t.configured_port ≡ c.port)
  pub named : split_endpoint net c.port false c.host ≡ endpoint t.configured_host t.configured_port
  pub protocol : t.target_protocol ≡ setting_or "rdp" c.protocol
  pub routed :
      t.via_gateway ≡ ((setting_or "rdp" c.protocol == codes "rdp") && not (is_empty c.gateway))
  pub direct :
      t.via_gateway ≡ false → (t.target_host ≡ t.configured_host) × (t.target_port ≡ c.port)
  pub gateway :
      t.via_gateway ≡ true
      → split_endpoint net 443 true c.gateway ≡ endpoint t.target_host t.target_port

abbrev IsNormal : Names → Connection → Normalized → Type 0
IsNormal net c (normalized t) = IsTarget net c t
IsNormal net c (unusable message) = Unit

through_gateway-IsNormal :
    (net : Names) (c : Connection) (host : Text) (port : ℕ) (e : Endpoint)
    → split_endpoint net c.port false c.host ≡ endpoint host port
    → IsEndpoint net c.port false (endpoint host port)
    → split_endpoint net 443 true c.gateway ≡ e
    → IsEndpoint net 443 true e
    → ((setting_or "rdp" c.protocol == codes "rdp") && not (is_empty c.gateway)) ≡ true
    → IsNormal net c (contacted c (setting_or "rdp" c.protocol) true host port e)
through_gateway-IsNormal net c host port (invalid message) named own away other rdp = tt
through_gateway-IsNormal net c host port (endpoint h p) named own away other rdp = record {
  host = other.0;
  port = other.1;
  named_host = own.0;
  named_port = (omega (arith, own.1.0, own.1.2), omega (arith, own.1.1, own.1.2), own.1.2);
  named = named;
  protocol = refl;
  routed = sym rdp;
  direct = λ q. absurd (ground (arith, q));
  gateway = λ q. away;
}

configured-IsNormal :
    (net : Names) (c : Connection) (e : Endpoint)
    → split_endpoint net c.port false c.host ≡ e
    → IsEndpoint net c.port false e
    → IsNormal net c (configured net c (setting_or "rdp" c.protocol) e)
configured-IsNormal net c (invalid message) named h = tt
configured-IsNormal net c (endpoint host port) named h =
    if_elim {A = Normalized} (IsNormal net c)
      ((setting_or "rdp" c.protocol == codes "rdp") && not (is_empty c.gateway))
      (λ q.
        through_gateway-IsNormal net c host port (split_endpoint net 443 true c.gateway) named h
          refl (split_endpoint-IsEndpoint net 443 true c.gateway) q)
      (λ q. record {
        host = h.0;
        port = (h.1.0, h.1.1);
        named_host = h.0;
        named_port = (omega (arith, h.1.0, h.1.2), omega (arith, h.1.1, h.1.2), h.1.2);
        named = named;
        protocol = refl;
        routed = sym q;
        direct = λ r. (refl, h.1.2);
        gateway = λ r. absurd (ground (arith, r));
      })

-- Where the diagnostics accept a connection, both the host it names, which is the one that its Host
-- field is read as, and the host to contact are an address as `ipaddress` spells it or a host name (of
-- at most 253 characters, each label of 1 to 63 letters, digits and inner dashes), both ports lie
-- between 1 and 65535, and the connection's port is its Port field's. It goes by a gateway exactly if
-- it is an RDP connection that names one; then the host and the port to contact are those that its
-- Gateway field is read as, with 443 where it names no port, and otherwise its own host and port.
pub normalize_target-IsTarget :
    (net : Names) (c : Connection) (t : Target)
    → normalize_target net c ≡ normalized t
    → IsTarget net c t
unfolding normalize_target
normalize_target-IsTarget net c t h = subst (IsNormal net c) h (
    if_elim {A = Normalized} (IsNormal net c)
      ((setting_or "rdp" c.protocol == codes "rdp") || (setting_or "rdp" c.protocol == codes "vnc"))
      (λ e.
        configured-IsNormal net c (split_endpoint net c.port false c.host) refl
          (split_endpoint-IsEndpoint net c.port false c.host))
      (λ e. tt))
