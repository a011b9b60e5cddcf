-- ===== src/Diagnostics/Careful.antt =====
-- Which connections the report's checks open.
use thinclient.Prelude.{◌≡◌, ◌⊎◌, true, false, List, [], ◌∷◌, if◌then◌else◌}
use thinclient.Text.{Text, is_empty}
use thinclient.Diagnostics.Report.{Findings}
use thinclient.Diagnostics.Preflight.{Contact, connects, shakes_hands}

-- no connection where the name did not resolve, one where the port did not answer, and else a second
-- one to the same port of the same address (of the target's host, if that is empty), unless it is a
-- gateway's
abbrev pub IsCareful : List Contact → Findings → Type 0
IsCareful contacts f =
    ((f.dns.ok ≡ false) × (contacts ≡ []))
    ⊎ (((f.dns.ok ≡ true)
          × (f.tcp.ok ≡ false)
          × ((address : Text) × (contacts ≡ connects address f.target.target_port ∷ [])))
        ⊎ ((f.dns.ok ≡ true)
            × (f.tcp.ok ≡ true)
            × ((address : Text) × (contacts
                  ≡ connects address f.target.target_port
                    ∷ (if f.target.via_gateway
                        then []
                        else shakes_hands
                            (if is_empty address then f.target.target_host else address)
                            f.target.target_port
                          ∷ [])))))
