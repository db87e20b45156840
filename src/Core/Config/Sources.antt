-- ===== src/Core/Config/Sources.antt =====
-- Which source the value of a key comes from.
use text.Mathlib.Text.{starts_with}
use toyhoodle.Prelude.{
  true, ◌≡◌, refl, ◌∙◌, ap, Option, none, some, List, [], ◌∷◌, String, str_eq, if◌then◌else◌, arith,
  eq_iff,
}
use toyhoodle.Core.Config.{
  HoodlConfig, put, find, load_entries, load_system_properties, new_config, get_config,
  get_config_or,
}

-- The value of the last entry of a key, `old` where there is none.
unfoldable pub last_value : String → List (String × String) → Option String → Option String
last_value key [] old = old
last_value key (e ∷ es) old = last_value key es (if str_eq e.0 key then some e.1 else old)

get_config-put :
    (key name value : String) (c : HoodlConfig)
    → get_config key (put name value c) ≡ (if str_eq name key then some value else get_config key c)
unfolding get_config put find
get_config-put key name value c = refl

get_config_empty : (key : String) → get_config key (record { hash_map = [] }) ≡ none
unfolding get_config find
get_config_empty key = refl

get_config-load_entries :
    (key : String) (es : List (String × String)) (c : HoodlConfig)
    → get_config key (load_entries es c) ≡ last_value key es (get_config key c)
unfolding load_entries last_value
get_config-load_entries key [] c = refl
get_config-load_entries key (e ∷ es) c =
    get_config-load_entries key es (put e.0 e.1 c)
    ∙ ap (λ old. last_value key es old) (get_config-put key e.0 e.1 c)

-- The system properties count for the keys that start with `toy.`, and for no other.
starts_with_same :
    (name key : String) → str_eq name key ≡ true → starts_with name "toy." ≡ starts_with key "toy."
starts_with_same name key h = ap (λ s. starts_with s "toy.") ((eq_iff name key).0 h)

get_config-load_system_properties :
    (key : String) (es : List (String × String)) (c : HoodlConfig)
    → get_config key (load_system_properties es c)
      ≡ (if starts_with key "toy." then last_value key es (get_config key c) else get_config key c)
unfolding load_system_properties last_value
get_config-load_system_properties key [] c = ground arith
get_config-load_system_properties key (e ∷ es) c = ground (
  arith,
  get_config-load_system_properties key es (put e.0 e.1 c),
  get_config-load_system_properties key es c,
  get_config-put key e.0 e.1 c,
  starts_with_same e.0 key,
)

-- The value of a key by its sources.
unfoldable pub source_value :
    String → List (String × String) → List (String × String) → Option String
source_value key entries properties =
    let in_file = last_value key entries none in
    if starts_with key "toy." then last_value key properties in_file else in_file

-- If the configuration file was read: the value of a key is that of the last system property of the
-- name, if the name starts with `toy.` and there is one, else that of the last entry of the file, else
-- none, in whose place the default is given.
pub get_config-new_config :
    (key default_value : String) (entries properties : List (String × String))
    → (c : HoodlConfig) × (new_config (some entries) properties ≡ some c)
      × (get_config key c ≡ source_value key entries properties)
      × (get_config_or key default_value c ≡ elim (source_value key entries properties) [
        | none ↦ default_value
        | some value ↦ value
      ])
unfolding new_config get_config_or source_value
get_config-new_config key d entries properties =
    let empty : HoodlConfig = record { hash_map = [] } in
    let e =
      get_config-load_system_properties key properties (load_entries entries empty)
      ∙ ap (λ v. if starts_with key "toy." then last_value key properties v else v)
          (get_config-load_entries key entries empty
            ∙ ap (last_value key entries) (get_config_empty key)) in
    (
      load_system_properties properties (load_entries entries empty),
      refl,
      e,
      ap (λ v. elim v [ none ↦ d | some value ↦ value ]) e,
    )
