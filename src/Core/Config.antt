-- ===== src/Core/Config.antt =====
-- HoodlConfig: the values of the configuration file, and over them the system properties whose name
-- starts with `toy.`. Keys and values are not null.
pub mod Sources
use text.Mathlib.Text.{starts_with}
use toyhoodle.Prelude.{Bool, Option, none, some, List, [], ◌∷◌, String, str_eq, if◌then◌else◌}

-- `hashMap`, the value that was put last first.
pub record HoodlConfig : Type 0 where
  pub hash_map : List (String × String)

unfoldable pub put : String → String → HoodlConfig → HoodlConfig
put key value c = record { hash_map = (key, value) ∷ c.hash_map }

unfoldable pub find : String → List (String × String) → Option String
find key [] = none
find key (e ∷ es) = if str_eq e.0 key then some e.1 else find key es

-- The loop of `loadfileProperties`, over the entries of `MapConfig.getAllConf()`.
unfoldable pub load_entries : List (String × String) → HoodlConfig → HoodlConfig
unfolding put
load_entries [] c = c
load_entries (e ∷ es) c = load_entries es (put e.0 e.1 c)

-- The loop of `loadSystemProperties`, over the names of the system properties and their values.
unfoldable pub load_system_properties : List (String × String) → HoodlConfig → HoodlConfig
unfolding put
load_system_properties [] c = c
load_system_properties (e ∷ es) c =
    load_system_properties es (if starts_with e.0 "toy." then put e.0 e.1 c else c)

-- The constructor, which raises a NullPointerException where the file was not read: `MapConfig` then
-- has no map.
unfoldable pub new_config :
    Option (List (String × String)) → List (String × String) → Option HoodlConfig
unfolding load_entries load_system_properties
new_config none properties = none
new_config (some entries) properties =
    some (load_system_properties properties (load_entries entries (record { hash_map = [] })))

unfoldable pub get_config : String → HoodlConfig → Option String
get_config key c = find key c.hash_map

unfoldable pub get_config_or : String → String → HoodlConfig → String
unfolding get_config
get_config_or key default_value c = elim (get_config key c) [
  | none ↦ default_value
  | some value ↦ value
]
