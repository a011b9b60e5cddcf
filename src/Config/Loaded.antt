-- ===== src/Config/Loaded.antt =====
-- What `load` hands to the rest of the program, whatever the files hold.
use thinclient.Prelude.{
  ◌≤◌, ◌≡◌, ◌≢◌, refl, ◌⊎◌, inl, inr, true, false, Option, none, some, List, [], ◌∷◌, map, arith,
  Bool-cases, ◌==◌, compare_texts, equal_iff, pos, Every,
}
use thinclient.Text.{Text, codes, is_empty}
use thinclient.Dict.{lookup}
use thinclient.Value.{int}
use thinclient.Config.{Device, Connection}
use thinclient.Config.Fields.{among}
use thinclient.Config.Connections.{Raw, get}
use thinclient.Config.Ids.{generated, assign_connection_ids}
use thinclient.Config.Distinct.{Distinct, assign_connection_ids-Distinct}
use thinclient.Config.Valid.{IsValid, normalise_connection-IsValid, bounded_int-bounds}
use thinclient.Config.Layers.{
  File, read, Merged, normalise_device, update_device, add_layer, merge, nothing_read, normalised,
  name_connection, ids, Configuration, settle, load_layers, settle_merged, Gate, is_blocked, load,
  object_at, find,
}
use thinclient.Config.Renaming.{
  assign_connection_ids-Every, Every-name_connection, set_id-IsValid, name_connection-IsValid,
  normalised-Every, Distinct-name_connection, Distinct-supplied, name_connection_supplied,
}

-- what every part of the program may rely on after `load`
pub record IsLoaded (cfg : Configuration) : Type 0 where
  pub connections_valid : Every IsValid cfg.connections
  pub ids_distinct : Distinct cfg.connections
  pub names_supplied : Every (λ c. is_empty c.name ≡ false) cfg.connections
  pub auto_connect_known :
      (cfg.device.auto_connect ≡ []) ⊎ (among cfg.device.auto_connect (ids cfg.connections) ≡ true)
  pub blanking_le : cfg.device.screen_blank_minutes ≤ 180

update_device-blanking :
    (d : Device) (raw : Option Raw)
    → d.screen_blank_minutes ≤ 180
    → (update_device d raw).screen_blank_minutes ≤ 180
unfolding normalise_device
update_device-blanking d none h = h
update_device-blanking d (some raw) h =
    (bounded_int-bounds (get "screen_blank_minutes" (int (pos d.screen_blank_minutes)) raw)
      d.screen_blank_minutes 0 180 (omega arith) h).1

add_layer-blanking :
    (m : Merged) (layer : Option Raw)
    → m.merged_device.screen_blank_minutes ≤ 180
    → (add_layer m layer).merged_device.screen_blank_minutes ≤ 180
add_layer-blanking m none h = h
add_layer-blanking m (some layer) h =
    update_device-blanking m.merged_device (object_at (lookup (codes "device") layer)) h

merge-blanking :
    (m : Merged) (files : List File)
    → m.merged_device.screen_blank_minutes ≤ 180
    → (merge m files).merged_device.screen_blank_minutes ≤ 180
unfolding merge
merge-blanking m [] h = h
merge-blanking m (file ∷ files) h =
    merge-blanking (add_layer m (read file)) files (add_layer-blanking m (read file) h)

settle-IsLoaded :
    (d : Device) (cs : List Connection)
    → Every IsValid cs
    → Distinct cs
    → Every (λ c. is_empty c.name ≡ false) cs
    → d.screen_blank_minutes ≤ 180
    → IsLoaded (settle d cs)
settle-IsLoaded d cs v u n b = elim (Bool-cases (among d.auto_connect (ids cs))) [
  | inl e ↦ record {
    connections_valid = v;
    ids_distinct = u;
    names_supplied = n;
    auto_connect_known = rw e (inr e);
    blanking_le = rw e b;
  }
  | inr e ↦ record {
    connections_valid = v;
    ids_distinct = u;
    names_supplied = n;
    auto_connect_known = rw e (inl refl);
    blanking_le = rw e b;
  }
]

pub load_layers-IsLoaded : (files : List File) → IsLoaded (load_layers files)
unfolding load_layers settle_merged
load_layers-IsLoaded files =
    let m = merge nothing_read files in
    let cs = normalised m.raw_connections in
    let valid =
      assign_connection_ids-Every IsValid (λ c n. set_id-IsValid c (generated n)) cs
        (normalised-Every IsValid m.raw_connections normalise_connection-IsValid) in
    let distinct = assign_connection_ids-Distinct cs in
    settle-IsLoaded m.merged_device (map name_connection (assign_connection_ids cs))
      (Every-name_connection IsValid IsValid (assign_connection_ids cs) name_connection-IsValid
        valid)
      (Distinct-name_connection (assign_connection_ids cs) distinct)
      (Every-name_connection (λ c. is_empty c.id ≡ false) (λ c. is_empty c.name ≡ false)
        (assign_connection_ids cs) name_connection_supplied
        (Distinct-supplied (assign_connection_ids cs) distinct))
      (merge-blanking nothing_read files (omega arith))

-- Whatever the configuration files and the policy hold, damaged or not, `load` gives a
-- configuration in which every connection is valid, all identifiers are there and distinct, every
-- connection has a name, the automatic connection is none or one of them, and the screen blanks
-- within 180 minutes.
pub load-IsLoaded : (files : List File) (g : Gate) → IsLoaded (load files g)
unfolding load
load-IsLoaded files g = elim (Bool-cases (is_blocked g)) [
  | inl e ↦ rw e (record {
    connections_valid = tt;
    ids_distinct = tt;
    names_supplied = tt;
    auto_connect_known = inl refl;
    blanking_le = (load_layers-IsLoaded files).blanking_le;
  })
  | inr e ↦ rw e (load_layers-IsLoaded files)
]

find-among :
    (name : Text) (cs : List Connection)
    → among name (ids cs) ≡ true
    → (c : Connection) × (find name cs ≡ some c) × (c.id ≡ name)
unfolding find
find-among name [] h = ground arith
find-among name (c ∷ cs) h = elim (Bool-cases (c.id == name)) [
  | inl e ↦ (c, rw e refl, (equal_iff c.id name).0 e)
  | inr e ↦ rw e (find-among name cs (ground arith))
]

-- Where the loaded configuration names a connection to start by itself, `find` gives a connection
-- with this identifier.
pub find-auto_connect :
    (files : List File) (g : Gate)
    → (load files g).device.auto_connect ≢ []
    → (c : Connection) × (find (load files g).device.auto_connect (load files g).connections
        ≡ some c)
      × (c.id ≡ (load files g).device.auto_connect)
find-auto_connect files g h = elim (load-IsLoaded files g).auto_connect_known [
  | inl none_set ↦ elim (h none_set) [ ]
  | inr known ↦ find-among (load files g).device.auto_connect (load files g).connections known
]
