-- ===== src/Config/Reload.antt =====
-- The whole configuration saved and loaded again, at the level of the JSON values.
use thinclient.Prelude.{
  ℕ, ◌≡◌, ◌≢◌, refl, sym, ap, ◌∙◌, inl, inr, true, false, some, List, [], ◌∷◌, ◌++◌, map, arith,
  Bool-cases, compare_texts, equal_iff, pos, Every,
}
use thinclient.Text.{Text, codes, is_empty}
use thinclient.Dict.{lookup}
use thinclient.Value.{Value, int, arr, obj, Items, item, end, items, nil, field}
use thinclient.Config.{Device, Connection}
use thinclient.Config.Fields.{among}
use thinclient.Config.Ids.{assign_from, explicit_ids, assign_connection_ids}
use thinclient.Config.Distinct.{Distinct, Fresh, keeps, named, following, assign_from_step}
use thinclient.Config.Valid.{IsValid}
use thinclient.Config.Stable.{to_raw, IsTrimmed, normalise_connection-to_raw}
use thinclient.Config.Layers.{
  File, read, Merged, merge, add_layer, nothing_read, normalised, name_connection, ids,
  Configuration, settle, load_layers, normalise_device, settle_merged,
}
use thinclient.Config.Loaded.{IsLoaded}
use thinclient.Config.Saved.{
  device_raw, IsSettled, normalise_device-device_raw, fields, entries-fields,
}

abbrev pub connection_items : List Connection → Items
connection_items [] = end
connection_items (c ∷ cs) = item (obj (fields (to_raw c))) (connection_items cs)

-- the payload of `save`
abbrev pub saved : Configuration → Value
saved cfg = obj (
    field (codes "schema") (int (pos 1)) (
      field (codes "device") (obj (fields (device_raw cfg.device)))
        (field (codes "connections") (arr (connection_items cfg.connections)) nil)))

normalised-connection_items :
    (cs : List Connection)
    → Every IsValid cs
    → Every IsTrimmed cs
    → normalised (items (connection_items cs)) ≡ cs
normalised-connection_items [] v t = refl
normalised-connection_items (c ∷ cs) v t = rw (entries-fields (to_raw c)) (
    rw (normalise_connection-to_raw c v.0 t.0)
      (ap (λ rest. c ∷ rest) (normalised-connection_items cs v.1 t.1)))

assign_from_same :
    (reserved used : List Text) (next : ℕ) (cs : List Connection)
    → Distinct cs
    → Every (Fresh used) cs
    → assign_from reserved used next cs ≡ cs
unfolding assign_from
assign_from_same reserved used next [] d f = refl
assign_from_same reserved used next (c ∷ cs) d f =
    let kept : keeps used c ≡ true = rw d.0 (rw f.0 refl) in
    let same : named reserved used next c ≡ c = rw kept refl in
    assign_from_step reserved used next c cs
    ∙ rw same (
        ap (λ rest. c ∷ rest)
          (assign_from_same reserved (c.id ∷ used) (following reserved used next c) cs d.2
            (still_fresh c cs d.1 f.1)))
  where
    still_fresh :
        (c : Connection) (cs : List Connection)
        → Every (λ d. d.id ≢ c.id) cs
        → Every (Fresh used) cs
        → Every (Fresh (c.id ∷ used)) cs
    still_fresh c [] h f = tt
    still_fresh c (d ∷ cs) h f =
        (ground (arith, h.0, f.0, equal_iff c.id d.id), still_fresh c cs h.1 f.1)

none_used : (cs : List Connection) → Every (Fresh []) cs
none_used [] = tt
none_used (c ∷ cs) = (refl, none_used cs)

assign_connection_ids_same : (cs : List Connection) → Distinct cs → assign_connection_ids cs ≡ cs
unfolding assign_connection_ids
assign_connection_ids_same cs h = assign_from_same (explicit_ids cs) [] 1 cs h (none_used cs)

map-name_connection_same :
    (cs : List Connection) → Every (λ c. is_empty c.name ≡ false) cs → map name_connection cs ≡ cs
map-name_connection_same [] h = refl
map-name_connection_same (c ∷ cs) h =
    rw h.0 (ap (λ rest. c ∷ rest) (map-name_connection_same cs h.1))

auto_connect_none :
    (cfg : Configuration)
    → IsLoaded cfg
    → among cfg.device.auto_connect (ids cfg.connections) ≡ false
    → cfg.device.auto_connect ≡ []
auto_connect_none cfg h e = elim h.auto_connect_known [
  | inl none_set ↦ none_set
  | inr known ↦ ground arith
]

abbrev unblocked : Device → List Connection → Configuration
unblocked d cs = record { device = d; connections = cs; configuration_blocked = false }

forget_same :
    (d : Device) (cs : List Connection)
    → d.auto_connect ≡ []
    → unblocked (record d { auto_connect = [] }) cs ≡ unblocked d cs
forget_same d cs h = λ i. unblocked (record d { auto_connect = sym h i }) cs

settle_same :
    (cfg : Configuration)
    → IsLoaded cfg
    → cfg.configuration_blocked ≡ false
    → settle cfg.device cfg.connections ≡ cfg
settle_same cfg h b = elim (Bool-cases (among cfg.device.auto_connect (ids cfg.connections))) [
  | inl e ↦ rw e (rw b refl)
  | inr e ↦ rw e (
      forget_same cfg.device cfg.connections (auto_connect_none cfg h e) ∙ λ i. record cfg {
        configuration_blocked = sym b i;
      })
]

merge-snoc :
    (m : Merged) (files : List File) (file : File)
    → merge m (files ++ file ∷ []) ≡ add_layer (merge m files) (read file)
unfolding merge
merge-snoc m [] file = refl
merge-snoc m (f ∷ files) file = merge-snoc (add_layer m (read f)) files file

-- what a configuration has that `save` and `load` carry over
pub record IsSaveable (cfg : Configuration) : Type 0 where
  pub loaded : IsLoaded cfg
  pub trimmed : Every IsTrimmed cfg.connections
  pub settled : IsSettled cfg.device
  pub open_to_use : cfg.configuration_blocked ≡ false

add_layer-saved :
    (m : Merged) (cfg : Configuration)
    → IsSaveable cfg
    → add_layer m (read (some (saved cfg))) ≡ record {
      merged_device = cfg.device;
      raw_connections = items (connection_items cfg.connections);
    }
unfolding lookup
add_layer-saved m cfg s = λ i. record {
  merged_device =
      (ap (normalise_device m.merged_device) (entries-fields (device_raw cfg.device))
          ∙ normalise_device-device_raw m.merged_device cfg.device s.settled)
        i;
  raw_connections = items (connection_items cfg.connections);
}

settle_merged-saved :
    (cfg : Configuration)
    → IsSaveable cfg
    → settle_merged (record {
      merged_device = cfg.device;
      raw_connections = items (connection_items cfg.connections);
    })
      ≡ cfg
unfolding settle_merged
settle_merged-saved cfg s =
    ap (λ cs. settle cfg.device (map name_connection (assign_connection_ids cs)))
      (normalised-connection_items cfg.connections s.loaded.connections_valid s.trimmed)
    ∙ ap (λ cs. settle cfg.device (map name_connection cs))
        (assign_connection_ids_same cfg.connections s.loaded.ids_distinct)
    ∙ ap (settle cfg.device) (map-name_connection_same cfg.connections s.loaded.names_supplied)
    ∙ settle_same cfg s.loaded s.open_to_use

pub load_layers-saveable :
    (files : List File) (cfg : Configuration)
    → IsSaveable cfg
    → load_layers (files ++ some (saved cfg) ∷ []) ≡ cfg
unfolding load_layers
load_layers-saveable files cfg s =
    ap settle_merged (
      merge-snoc nothing_read files (some (saved cfg))
      ∙ add_layer-saved (merge nothing_read files) cfg s)
    ∙ settle_merged-saved cfg s
