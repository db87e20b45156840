-- ===== src/Core/Tests.antt =====
-- Runs of the configuration on a file and on system properties, and an instance of the theorem.
use toyhoodle.Prelude.{◌≡◌, refl, none, some, List, [], ◌∷◌, String}
use toyhoodle.Core.Config.{
  HoodlConfig, put, find, load_entries, load_system_properties, new_config, get_config,
  get_config_or,
}
use toyhoodle.Core.Config.Sources.{source_value, last_value, get_config-new_config}

program : Unit {0}
unfolding put find load_entries load_system_properties new_config get_config get_config_or
    source_value last_value
program = tt

abbrev entries : List (String × String)
entries = ("toy.port", "1") ∷ ("name", "a") ∷ []

abbrev properties : List (String × String)
properties = ("toy.port", "2") ∷ ("name", "b") ∷ []

sources_run :
    (source_value "toy.port" entries properties ≡ some "2")
    × (source_value "name" entries properties ≡ some "a")
    × (source_value "host" entries properties ≡ none)
unfolding program
sources_run = (refl, refl, refl)

unread_run : new_config none properties ≡ none
unfolding program
unread_run = refl

get_config-new_config_example :
    (c : HoodlConfig) × (new_config (some entries) properties ≡ some c)
    × (get_config "toy.port" c ≡ source_value "toy.port" entries properties)
    × (get_config_or "toy.port" "0" c
        ≡ elim (source_value "toy.port" entries properties) [ none ↦ "0" | some value ↦ value ])
get_config-new_config_example = get_config-new_config "toy.port" "0" entries properties
