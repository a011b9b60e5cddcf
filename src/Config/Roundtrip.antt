-- ===== src/Config/Roundtrip.antt =====
-- Every configuration that `load` makes is one that `save` and `load` carry over.
use thinclient.Prelude.{
  ℕ, ◌/◌, ◌≡◌, refl, ap, ◌∙◌, inl, inr, false, Option, none, some, List, [], ◌∷◌, ◌++◌, map, arith,
  Bool-cases, compare_texts, Every, Every-append, suc, zero, ltb,
}
use thinclient.Text.{Text, codes, is_empty, is_space, strip, lstrip, rstrip}
use thinclient.Dict.{lookup}
use thinclient.Config.{Device, Connection, device_defaults}
use thinclient.Config.Fields.{among}
use thinclient.Config.Connections.{Raw}
use thinclient.Config.Ids.{
  last_digit, decimal_on, decimal, generated, set_id, assign_connection_ids,
}
use thinclient.Config.Generated.{decimal_on_last, decimal_on_more}
use thinclient.Config.Stable.{IsStripped, IsTrimmed, normalise_connection-IsTrimmed}
use thinclient.Config.Layers.{
  File, read, Merged, merge, add_layer, nothing_read, update_device, normalised, name_connection,
  ids, settle, load_layers, object_at, settle_merged,
}
use thinclient.Config.Renaming.{
  assign_connection_ids-Every, Every-name_connection, normalised-Every,
}
use thinclient.Config.Loaded.{load_layers-IsLoaded}
use thinclient.Config.Saved.{IsSettled, normalise_device-IsSettled, forget_auto_connect}
use thinclient.Config.Reload.{saved, IsSaveable, load_layers-saveable}

-- no white space in the text
abbrev IsSolid : Text → Type 0
IsSolid s = Every (λ c. is_space c ≡ false) s

rstrip_of_IsSolid : (s : Text) → IsSolid s → rstrip s ≡ s
unfolding rstrip
rstrip_of_IsSolid [] h = refl
rstrip_of_IsSolid (c ∷ s) h = rw h.0 (ap (λ rest. c ∷ rest) (rstrip_of_IsSolid s h.1))

lstrip_of_IsSolid : (s : Text) → IsSolid s → lstrip s ≡ s
unfolding lstrip
lstrip_of_IsSolid [] h = refl
lstrip_of_IsSolid (c ∷ s) h = rw h.0 refl

last_digit_solid : (n : ℕ) → is_space (last_digit n) ≡ false
unfolding is_space
last_digit_solid n = ground arith

decimal_on-IsSolid : (fuel n : ℕ) → IsSolid (decimal_on fuel n)
unfolding decimal_on
decimal_on-IsSolid zero n = (last_digit_solid n, tt)
decimal_on-IsSolid (suc fuel) n = elim (Bool-cases (ltb n 10)) [
  | inl e ↦ rw (decimal_on_last fuel n e) (last_digit_solid n, tt)
  | inr e ↦ rw (decimal_on_more fuel n e) (
      Every-append (λ c. is_space c ≡ false) (decimal_on fuel (n / 10)) (last_digit n ∷ [])
        (decimal_on-IsSolid fuel (n / 10)) (last_digit_solid n, tt))
]

generated-IsSolid : (n : ℕ) → IsSolid (generated n)
unfolding generated decimal is_space
generated-IsSolid n = (refl, (refl, (refl, (refl, decimal_on-IsSolid n n))))

generated-IsStripped : (n : ℕ) → IsStripped (generated n)
unfolding strip
generated-IsStripped n =
    ap rstrip (lstrip_of_IsSolid (generated n) (generated-IsSolid n))
    ∙ rstrip_of_IsSolid (generated n) (generated-IsSolid n)

set_id-IsTrimmed : (c : Connection) (n : ℕ) → IsTrimmed c → IsTrimmed (set_id c (generated n))
set_id-IsTrimmed c n t = record {
  id_trimmed = generated-IsStripped n;
  name_trimmed = t.name_trimmed;
  group_trimmed = t.group_trimmed;
  description_trimmed = t.description_trimmed;
  host_trimmed = t.host_trimmed;
  username_trimmed = t.username_trimmed;
  domain_trimmed = t.domain_trimmed;
  gateway_trimmed = t.gateway_trimmed;
  gateway_username_trimmed = t.gateway_username_trimmed;
  gateway_domain_trimmed = t.gateway_domain_trimmed;
  app_trimmed = t.app_trimmed;
  display_trimmed = t.display_trimmed;
  arguments_trimmed = t.arguments_trimmed;
}

named-IsTrimmed :
    (c : Connection) (name : Text)
    → IsStripped name
    → IsTrimmed c
    → IsTrimmed (record c { name = name })
named-IsTrimmed c name h t = record {
  id_trimmed = t.id_trimmed;
  name_trimmed = h;
  group_trimmed = t.group_trimmed;
  description_trimmed = t.description_trimmed;
  host_trimmed = t.host_trimmed;
  username_trimmed = t.username_trimmed;
  domain_trimmed = t.domain_trimmed;
  gateway_trimmed = t.gateway_trimmed;
  gateway_username_trimmed = t.gateway_username_trimmed;
  gateway_domain_trimmed = t.gateway_domain_trimmed;
  app_trimmed = t.app_trimmed;
  display_trimmed = t.display_trimmed;
  arguments_trimmed = t.arguments_trimmed;
}

name_connection-IsTrimmed : (c : Connection) → IsTrimmed c → IsTrimmed (name_connection c)
name_connection-IsTrimmed c t = elim (Bool-cases (is_empty c.name)) [
  | inl e ↦ rw e (elim (Bool-cases (is_empty c.host)) [
    | inl f ↦ rw f (named-IsTrimmed c c.id t.id_trimmed t)
    | inr f ↦ rw f (named-IsTrimmed c c.host t.host_trimmed t)
  ])
  | inr e ↦ rw e t
]

device_defaults-IsSettled : IsSettled device_defaults
unfolding strip
device_defaults-IsSettled = record {
  hostname_prefix_trimmed = refl;
  keyboard_layout_trimmed = refl;
  keyboard_variant_trimmed = refl;
  timezone_trimmed = refl;
  ntp_server_trimmed = refl;
  resolution_trimmed = refl;
  auto_connect_trimmed = refl;
  blanking_le = omega arith;
}

update_device-IsSettled :
    (d : Device) (raw : Option Raw) → IsSettled d → IsSettled (update_device d raw)
update_device-IsSettled d none h = h
update_device-IsSettled d (some raw) h = normalise_device-IsSettled d raw h

add_layer-IsSettled :
    (m : Merged) (layer : Option Raw)
    → IsSettled m.merged_device
    → IsSettled (add_layer m layer).merged_device
add_layer-IsSettled m none h = h
add_layer-IsSettled m (some layer) h =
    update_device-IsSettled m.merged_device (object_at (lookup (codes "device") layer)) h

merge-IsSettled :
    (m : Merged) (files : List File)
    → IsSettled m.merged_device
    → IsSettled (merge m files).merged_device
unfolding merge
merge-IsSettled m [] h = h
merge-IsSettled m (file ∷ files) h =
    merge-IsSettled (add_layer m (read file)) files (add_layer-IsSettled m (read file) h)

settle-IsSettled :
    (d : Device) (cs : List Connection) → IsSettled d → IsSettled (settle d cs).device
settle-IsSettled d cs h = elim (Bool-cases (among d.auto_connect (ids cs))) [
  | inl e ↦ rw e h
  | inr e ↦ rw e (forget_auto_connect d h)
]

load_layers-IsSaveable : (files : List File) → IsSaveable (load_layers files)
unfolding load_layers settle_merged
load_layers-IsSaveable files =
    let m = merge nothing_read files in
    let cs = normalised m.raw_connections in
    let named = map name_connection (assign_connection_ids cs) in
    record {
      loaded = load_layers-IsLoaded files;
      trimmed =
          Every-name_connection IsTrimmed IsTrimmed (assign_connection_ids cs)
            name_connection-IsTrimmed
            (assign_connection_ids-Every IsTrimmed set_id-IsTrimmed cs
              (normalised-Every IsTrimmed m.raw_connections normalise_connection-IsTrimmed));
      settled =
          settle-IsSettled m.merged_device named
            (merge-IsSettled nothing_read files device_defaults-IsSettled);
      open_to_use = refl;
    }

-- A configuration that was loaded from any files, saved and read again as the last layer after any
-- other layers, comes back exactly: every device setting and every connection, in order, with its
-- identifier and its name.
pub load_layers-saved :
    (before files : List File)
    → load_layers (before ++ some (saved (load_layers files)) ∷ []) ≡ load_layers files
load_layers-saved before files =
    load_layers-saveable before (load_layers files) (load_layers-IsSaveable files)
