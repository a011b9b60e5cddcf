-- ===== src/Config/Tests.antt =====
-- The configuration of a small fleet.
use thinclient.Prelude.{
  ◌⊎◌, ◌≡◌, refl, true, false, none, some, List, [], ◌∷◌, ◌++◌, arith, length, pos, compare_texts,
}
use thinclient.Text.{codes}
use thinclient.Value.{null, bool, int, str, arr, obj, item, end, field, nil}
use thinclient.Config.{Connection}
use thinclient.Config.Fields.{among, spelling}
use thinclient.Config.Connections.{Raw, get, normalise_connection}
use thinclient.Config.Ids.{decimal, generated, next_free, set_id, assign_connection_ids}
use thinclient.Config.Generated.{next_free_lem}
use thinclient.Config.Distinct.{
  Distinct, assign_connection_ids-Distinct, assign_connection_ids_first,
}
use thinclient.Config.Valid.{IsValid, normalise_connection-IsValid, one_of, cert_policy_lem}
use thinclient.Config.Layers.{File, Gate, load_layers, load, ids, find}
use thinclient.Config.Gate.{Blocks, Opens, load_gate}
use thinclient.Config.Loaded.{IsLoaded, load-IsLoaded, find-auto_connect}
use thinclient.Config.Reload.{saved}
use thinclient.Config.Roundtrip.{load_layers-saved}
use thinclient.Config.Nmcli.{parse_nmcli_terse, row, parse_nmcli_terse-row}

abbrev lab_entry : Raw
lab_entry =
    (codes "id", str (codes " lab "))
    ∷ (codes "host", str (codes "10.0.0.5"))
    ∷ (codes "port", int (pos 70000))
    ∷ (codes "cert_policy", str (codes "Ignroe"))
    ∷ []

abbrev lab : Connection
lab = normalise_connection lab_entry

abbrev anonymous : Connection
anonymous = set_id lab []

-- a factory file with two connections, one of them without an identifier
abbrev factory : File
factory = some (
    obj (
      field (codes "device") (obj (field (codes "auto_connect") (str (codes "lab")) nil)) (
        field (codes "connections")
          (arr (
            item (obj (field (codes "id") (str (codes "lab")) nil))
              (item (obj (field (codes "host") (str (codes "h")) nil)) (item null end))))
          nil)))

-- what overrides the device only
abbrev remote : File
remote =
    some (obj (field (codes "device") (obj (field (codes "show_ip") (str (codes " No")) nil)) nil))

abbrev open_gate : Gate
open_gate = record { policy = none; policy_exists = false; status = none }

abbrev strict_gate : Gate
strict_gate = record {
  policy = some (obj (field (codes "config_required") (bool true) nil));
  policy_exists = true;
  status = some (obj (field (codes "state") (str (codes "failed")) nil));
}

fleet_ids : ids (load_layers (factory ∷ remote ∷ [])).connections ≡ codes "lab" ∷ codes "conn1" ∷ []
unfolding load_layers
fleet_ids = refl

fleet_device :
    ((load_layers (factory ∷ remote ∷ [])).device.auto_connect ≡ codes "lab")
    × ((load_layers (factory ∷ remote ∷ [])).device.show_ip ≡ false)
unfolding load_layers
fleet_device = (refl, refl)

lab_normalised : (lab.port ≡ 65535) × (lab.cert_policy ≡ codes "strict") × (lab.id ≡ codes "lab")
unfolding normalise_connection
lab_normalised = (refl, refl, refl)

decimal_runs : decimal 120 ≡ codes "120"
unfolding decimal
decimal_runs = refl

load-IsLoaded_example : IsLoaded (load (factory ∷ none ∷ remote ∷ []) open_gate)
load-IsLoaded_example = load-IsLoaded (factory ∷ none ∷ remote ∷ []) open_gate

load_layers-saved_example :
    load_layers ((remote ∷ []) ++ some (saved (load_layers (factory ∷ remote ∷ []))) ∷ [])
    ≡ load_layers (factory ∷ remote ∷ [])
load_layers-saved_example = load_layers-saved (remote ∷ []) (factory ∷ remote ∷ [])

assign_connection_ids-Distinct_example :
    Distinct (assign_connection_ids (anonymous ∷ lab ∷ lab ∷ set_id lab (codes "conn1") ∷ []))
assign_connection_ids-Distinct_example =
    assign_connection_ids-Distinct (anonymous ∷ lab ∷ lab ∷ set_id lab (codes "conn1") ∷ [])

assign_connection_ids_first_example :
    (before : List Connection) × (after : List Connection) × (assign_connection_ids
        ((anonymous ∷ anonymous ∷ []) ++ set_id lab (codes "conn1") ∷ lab ∷ [])
      ≡ before ++ set_id lab (codes "conn1") ∷ after)
    × (length before ≡ 2)
assign_connection_ids_first_example =
    assign_connection_ids_first (anonymous ∷ anonymous ∷ []) (set_id lab (codes "conn1")) (lab ∷ [])
      refl ((λ e. ground (arith, e)), ((λ e. ground (arith, e)), tt))

normalise_connection-IsValid_example : IsValid (normalise_connection lab_entry)
normalise_connection-IsValid_example = normalise_connection-IsValid lab_entry

cert_policy_lem_example :
    (normalise_connection lab_entry).cert_policy
    ≡ one_of
        (codes "ignore")
        (codes "tofu")
        (codes "strict")
        (spelling (get "cert_policy" null lab_entry))
cert_policy_lem_example = cert_policy_lem lab_entry

load_gate_example :
    (Blocks strict_gate
      × ((load (factory ∷ []) strict_gate).connections ≡ [])
      × ((load (factory ∷ []) strict_gate).device.auto_connect ≡ [])
      × ((load (factory ∷ []) strict_gate).configuration_blocked ≡ true))
    ⊎ (Opens strict_gate × (load (factory ∷ []) strict_gate ≡ load_layers (factory ∷ [])))
load_gate_example = load_gate (factory ∷ []) strict_gate

auto_connect_set : (load (factory ∷ []) open_gate).device.auto_connect ≡ codes "lab"
unfolding load
auto_connect_set = refl

find-auto_connect_example :
    (c : Connection) × (find
        (load (factory ∷ []) open_gate).device.auto_connect
        (load (factory ∷ []) open_gate).connections
      ≡ some c)
    × (c.id ≡ (load (factory ∷ []) open_gate).device.auto_connect)
find-auto_connect_example =
    find-auto_connect (factory ∷ []) open_gate (λ e. ground (arith, e, auto_connect_set))

next_free_lem_example :
    among
      (generated (next_free 3 (codes "conn2" ∷ codes "conn1" ∷ []) 1))
      (codes "conn2" ∷ codes "conn1" ∷ [])
    ≡ false
next_free_lem_example = next_free_lem 3 (codes "conn2" ∷ codes "conn1" ∷ []) 1 (omega arith)

parse_nmcli_terse-row_example :
    parse_nmcli_terse (row (codes "Cafe:5G") (codes "90" ∷ codes "a\\b" ∷ []))
    ≡ codes "Cafe:5G" ∷ codes "90" ∷ codes "a\\b" ∷ []
parse_nmcli_terse-row_example =
    parse_nmcli_terse-row (codes "Cafe:5G") (codes "90" ∷ codes "a\\b" ∷ [])
