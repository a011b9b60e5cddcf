-- ===== src/Diagnostics/Endpoint.antt =====
-- `_split_endpoint` and `normalize_target`: the address that the diagnostics may contact.
use thinclient.Prelude.{
  ℕ, Bool, true, false, not, ◌&&◌, ◌||◌, Option, none, some, List, [], ◌∷◌, ◌++◌, any, all, ltb,
  leb, nat_eq, length, take, if◌then◌else◌, ℤ, pos, negsuc, ◌==◌, compare_texts,
}
use thinclient.Text.{
  Text, codes, is_empty, is_space, strip, lower, split, contains_char, digit_value, int_of_text,
}
use thinclient.Config.{Connection}
use thinclient.Command.Failure.{occurs}
use thinclient.Command.Rdp.{setting_or}
use thinclient.Diagnostics.{Names}

-- a host and a port, or the message of the ValueError
pub data Endpoint : Type 0 where
  endpoint : Text → ℕ → Endpoint
  invalid : Text → Endpoint

-- the characters of str.isdigit that are not decimal digits: the first and the last of each run
abbrev other_digits : List (ℕ × ℕ)
other_digits =
    (0xB2, 0xB3)
    ∷ (0xB9, 0xB9)
    ∷ (0x1369, 0x1371)
    ∷ (0x19DA, 0x19DA)
    ∷ (0x2070, 0x2070)
    ∷ (0x2074, 0x2079)
    ∷ (0x2080, 0x2089)
    ∷ (0x2460, 0x2468)
    ∷ (0x2474, 0x247C)
    ∷ (0x2488, 0x2490)
    ∷ (0x24EA, 0x24EA)
    ∷ (0x24F5, 0x24FD)
    ∷ (0x24FF, 0x24FF)
    ∷ (0x2776, 0x277E)
    ∷ (0x2780, 0x2788)
    ∷ (0x278A, 0x2792)
    ∷ (0x10A40, 0x10A43)
    ∷ (0x10E60, 0x10E68)
    ∷ (0x11052, 0x1105A)
    ∷ (0x1F100, 0x1F10A)
    ∷ []

abbrev is_decimal : Option ℕ → Bool
is_decimal none = false
is_decimal (some d) = true

abbrev is_digit_char : ℕ → Bool
is_digit_char c = is_decimal (digit_value c) || any (λ (lo, hi). leb lo c && leb c hi) other_digits

-- s.isdigit()
unfoldable pub isdigit : Text → Bool
unfolding digit_value
isdigit s = not (is_empty s) && all is_digit_char s

-- `isalnum` or a dash, of the ASCII characters that the idna codec leaves
abbrev is_label_char : ℕ → Bool
is_label_char c =
    (leb b'0' c && leb c b'9')
    || (leb b'A' c && leb c b'Z')
    || (leb b'a' c && leb c b'z')
    || nat_eq c b'-'

abbrev starts_with_dash : Text → Bool
starts_with_dash [] = false
starts_with_dash (c ∷ s) = nat_eq c b'-'

abbrev ends_with_dash : Text → Bool
ends_with_dash [] = false
ends_with_dash (c ∷ []) = nat_eq c b'-'
ends_with_dash (c ∷ d ∷ s) = ends_with_dash (d ∷ s)

abbrev pub is_label : Text → Bool
is_label l =
    not (is_empty l)
    && leb (length l) 63
    && not (starts_with_dash l)
    && not (ends_with_dash l)
    && all is_label_char l

unfoldable pub is_hostname : Text → Bool
unfolding split
is_hostname host = not (is_empty host) && leb (length host) 253 && all is_label (split b'.' host)

-- s.rstrip(".")
unfoldable pub without_dots : Text → Text
without_dots [] = []
without_dots (c ∷ s) =
    let rest = without_dots s in if nat_eq c b'.' && is_empty rest then [] else c ∷ rest

abbrev pub encoded_host : Option Text → Option Text
encoded_host none = none
encoded_host (some host) = if is_hostname host then some host else none

abbrev pub lowered : Option Text → Option Text
lowered none = none
lowered (some host) = some (lower host)

-- the address in its usual spelling, or else the name as the idna codec and `lower` spell it
abbrev pub host_name : Option Text → Names → Text → Option Text
host_name (some address) net host = some address
host_name none net host = encoded_host (lowered (net.idna (without_dots host)))

abbrev pub at_host : Option Text → ℕ → Endpoint
at_host none port = invalid (codes "invalid server hostname")
at_host (some host) port = endpoint host port

-- from the check of the port on
unfoldable pub check_endpoint : Names → Text → ℤ → Endpoint
unfolding is_hostname without_dots lower
check_endpoint net host (negsuc n) = invalid (codes "server port must be between 1 and 65535")
check_endpoint net host (pos port) =
    if leb 1 port && leb port 65535
    then at_host (host_name (net.ip_address host) net host) port
    else invalid (codes "server port must be between 1 and 65535")

-- what stands before the first such character and what follows it, or none
unfoldable pub cut_at : ℕ → Text → Option (Text × Text)
cut_at sep [] = none
cut_at sep (c ∷ s) = elim (nat_eq c sep) [
  | true ↦ some ([], s)
  | false ↦ elim (cut_at sep s) [ none ↦ none | some (front, back) ↦ some (c ∷ front, back) ]
]

-- with the port int(digits)
abbrev pub with_port : Names → Text → Text → Option ℤ → Endpoint
with_port net host digits none =
    invalid (codes "invalid literal for int() with base 10: '" ++ digits ++ codes "'")
with_port net host digits (some port) = check_endpoint net host port

abbrev pub bracket_suffix : Names → ℕ → Bool → Text → Text → Endpoint
bracket_suffix net default_port embedded host [] = check_endpoint net host (pos default_port)
bracket_suffix net default_port embedded host (c ∷ digits) =
    if embedded && nat_eq c b':' && isdigit digits
    then with_port net host digits (int_of_text digits)
    else invalid (codes "invalid server port")

-- the text after the opening bracket
abbrev pub bracketed_host : Names → ℕ → Bool → Option (Text × Text) → Endpoint
bracketed_host net default_port embedded none = invalid (codes "invalid bracketed IPv6 address")
bracketed_host net default_port embedded (some (host, suffix)) =
    if net.is_ipv6_address host
    then bracket_suffix net default_port embedded host suffix
    else invalid (codes "brackets are only valid around IPv6 addresses")

-- a text with its parts at its only colon
abbrev pub plain_host : Names → ℕ → Bool → Text → Option (Text × Text) → Endpoint
plain_host net default_port embedded raw none = check_endpoint net raw (pos default_port)
plain_host net default_port embedded raw (some (candidate, suffix)) =
    if contains_char b':' suffix
    then check_endpoint net raw (pos default_port)
    else if isdigit suffix && embedded
    then with_port net candidate suffix (int_of_text suffix)
    else if isdigit suffix
    then invalid (codes "put the server port in the Port field")
    else check_endpoint net raw (pos default_port)

abbrev pub split_raw : Names → ℕ → Bool → Text → Endpoint
split_raw net default_port embedded [] = plain_host net default_port embedded [] none
split_raw net default_port embedded (c ∷ rest) =
    if nat_eq c b'['
    then bracketed_host net default_port embedded (cut_at b']' rest)
    else plain_host net default_port embedded (c ∷ rest) (cut_at b':' (c ∷ rest))

abbrev pub is_url_char : ℕ → Bool
is_url_char c = nat_eq c b'/' || nat_eq c b'?' || nat_eq c b'#' || nat_eq c b'@'

unfoldable pub split_endpoint : Names → ℕ → Bool → Text → Endpoint
unfolding strip occurs isdigit cut_at check_endpoint int_of_text
split_endpoint net default_port embedded value =
    let raw = strip value in
    if is_empty raw || ltb 253 (length raw) || any (λ c. ltb c 33) raw
    then invalid (codes "server address is missing or invalid")
    else if occurs (codes "://") raw || any is_url_char raw
    then invalid (codes "enter a hostname or IP address, not a URL")
    else split_raw net default_port embedded raw

-- the effective endpoint of a connection, without its secrets
pub record Target : Type 0 where
  pub target_name : Text
  pub target_protocol : Text
  pub target_host : Text
  pub target_port : ℕ
  pub via_gateway : Bool
  pub configured_host : Text
  pub configured_port : ℕ

pub data Normalized : Type 0 where
  normalized : Target → Normalized
  unusable : Text → Normalized

-- The words of `value.split()`; the flag says that a word goes on.
unfoldable pub words_from : Text → Text → List Text
unfolding is_space
words_from word [] = if is_empty word then [] else word ∷ []
words_from word (c ∷ s) = elim (is_space c) [
  | true ↦ elim (is_empty word) [ true ↦ words_from [] s | false ↦ word ∷ words_from [] s ]
  | false ↦ words_from (word ++ c ∷ []) s
]

abbrev pub spaced : List Text → Text
spaced [] = []
spaced (w ∷ []) = w
spaced (w ∷ v ∷ ws) = w ++ b' ' ∷ spaced (v ∷ ws)

-- at most 80 characters
unfoldable pub clean_label : Text → Text
unfolding words_from
clean_label value =
    let text = take 80 (spaced (words_from [] value)) in
    if is_empty text then codes "Configured server" else text

abbrev pub contacted : Connection → Text → Bool → Text → ℕ → Endpoint → Normalized
contacted c protocol via host port (invalid message) = unusable message
contacted c protocol via host port (endpoint h p) = normalized (record {
  target_name = clean_label c.name;
  target_protocol = protocol;
  target_host = h;
  target_port = p;
  via_gateway = via;
  configured_host = host;
  configured_port = port;
})

abbrev pub configured : Names → Connection → Text → Endpoint → Normalized
configured net c protocol (invalid message) = unusable message
configured net c protocol (endpoint host port) =
    if (protocol == codes "rdp") && not (is_empty c.gateway)
    then contacted c protocol true host port (split_endpoint net 443 true c.gateway)
    else contacted c protocol false host port (endpoint host port)

-- of a connection whose port is a number
unfoldable pub normalize_target : Names → Connection → Normalized
unfolding setting_or split_endpoint clean_label
normalize_target net c =
    let protocol = setting_or "rdp" c.protocol in
    if (protocol == codes "rdp") || (protocol == codes "vnc")
    then configured net c protocol (split_endpoint net c.port false c.host)
    else unusable (codes "unsupported connection protocol")
