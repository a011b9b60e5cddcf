-- ===== src/Rdp/Tests.antt =====
-- The probe on small exchanges.
use thinclient.Prelude.{
  ◌≡◌, ◌≤◌, ◌<◌, refl, none, some, List, [], ◌∷◌, ◌++◌, arith, length, pos, negsuc,
}
use thinclient.Text.{codes}
use thinclient.Rdp.{Bytes, max_tpkt_size}
use thinclient.Rdp.Request.{connection_request, requested_protocols, tpkt}
use thinclient.Rdp.Response.{
  Answer, error, selected, failure, failure_text, parse_response, no_reply, truncated_response,
}
use thinclient.Rdp.Transport.{Delivery, hand_over, fault, Socket, answered, raised_os_error, probe}
use thinclient.Rdp.Wire.{Requests, connection_request_lem}
use thinclient.Rdp.Answers.{
  confirm, Chosen, Refused, Confirms, IsKnown, parse_response-confirm, parse_response-selected,
}
use thinclient.Rdp.Fragments.{probe_lem}
use thinclient.Rdp.Bounds.{EndsWithin, probe-EndsWithin}

abbrev hybrid : Bytes
hybrid = confirm 2 0 2 0 0 0x12 0x34 0

abbrev hybrid_name : Answer
hybrid_name =
    selected (codes "HYBRID") (codes "NLA / CredSSP - credentials required before the desktop") 2

reads_hybrid : parse_response hybrid ≡ hybrid_name
unfolding parse_response
reads_hybrid = refl

reads_failure : parse_response (confirm 3 0 9 0 0 0 0 0) ≡ failure (failure_text 9) 9
unfolding parse_response
reads_failure = refl

in_pieces : List Delivery
in_pieces = hand_over 1 ∷ hand_over 0 ∷ hand_over 7 ∷ []

probe_runs :
    (probe (some (record { incoming = tpkt hybrid ++ 99 ∷ []; deliveries = in_pieces }))).1
    ≡ answered hybrid_name (record { incoming = 99 ∷ []; deliveries = [] })
unfolding probe tpkt in_pieces
probe_runs = refl

probe_problems :
    ((probe (some (record { incoming = []; deliveries = [] }))).1
      ≡ answered (error no_reply) (record { incoming = []; deliveries = [] }))
    × ((probe (some (record { incoming = 3 ∷ 0 ∷ 0 ∷ 19 ∷ 14 ∷ []; deliveries = [] }))).1
        ≡ answered (error (truncated_response 1 15)) (record { incoming = []; deliveries = [] }))
    × ((probe (some (record { incoming = 3 ∷ []; deliveries = fault ∷ [] }))).1 ≡ raised_os_error)
unfolding probe
probe_problems = (refl, refl, refl)

connection_request_lem_example :
    (11 < 4294967296 → (b : Bytes) × (connection_request (pos 11) ≡ some b) × Requests b 11)
    × (4294967296 ≤ 11 → connection_request (pos 11) ≡ none)
    × (connection_request (negsuc 11) ≡ none)
connection_request_lem_example = connection_request_lem 11

parse_response-confirm_example :
    Chosen 2 (parse_response (confirm 2 0 2 0 0 18 52 0))
    × Refused 2 (parse_response (confirm 3 0 2 0 0 18 52 0))
parse_response-confirm_example = parse_response-confirm 0 2 0 0 18 52 0 (omega arith)

parse_response-selected_example : Confirms 2 2 hybrid × IsKnown 2
parse_response-selected_example = parse_response-selected hybrid _ _ 2 reads_hybrid

abbrev peer : Socket
peer = record { incoming = tpkt hybrid ++ 99 ∷ []; deliveries = hand_over 1 ∷ hand_over 6 ∷ [] }

probe_lem_example :
    (rest : Socket) × (probe (some peer)
      ≡ (connection_request (pos requested_protocols), answered (parse_response hybrid) rest))
    × (rest.incoming ≡ 99 ∷ [])
probe_lem_example =
    probe_lem hybrid (99 ∷ []) (hand_over 1 ∷ hand_over 6 ∷ []) (omega arith) (omega arith)
      (tt, (tt, tt))

probe-EndsWithin_example : EndsWithin max_tpkt_size (length peer.incoming) (probe (some peer)).1
probe-EndsWithin_example = probe-EndsWithin peer
