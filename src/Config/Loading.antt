-- ===== src/Config/Loading.antt =====
-- crates/jux-core/src/config/mod.rs: the file of a user, and the settings read from it.
use jux.Base.{
  Bool, Text, codes, text_eq, List, [], ◌∷◌, ◌++◌, map, find, Option, none, some, Result, ok, err,
  ◌>>=◌, ◌>>◌, map_err, if◌then◌else◌, ◌||◌,
}
use jux.Policy.Paths.{FilePath, normal, join}
use jux.State.Ids.{rsplit_once}
use jux.Agent.Discovery.{file_name}
use jux.Config.Settings.{JuxConfig, default_config}
use jux.Config.Merging.{Value, merge_value, reject_null_values}
use jux.Config.Jsonc.{strip_jsonc_comments}

-- The crates that read and write settings; an error is the text that it displays.
pub record Formats : Type 0 where
  -- `serde_yaml::from_str` and `serde_json::from_str`
  pub parse_yaml : Text → Result Text Value
  pub parse_json : Text → Result Text Value
  -- `serde_json::to_value` and `serde_json::from_value`
  pub to_value : JuxConfig → Result Text Value
  pub from_value : Value → Result Text JuxConfig

-- The file system.
pub record Files : Type 0 where
  pub is_file : FilePath → Bool
  pub read_to_string : FilePath → Result Text Text

abbrev pub config_relative_paths : List FilePath
config_relative_paths =
    (normal (codes ".jux") ∷ normal (codes "config.yaml") ∷ [])
    ∷ (normal (codes ".jux") ∷ normal (codes "config.yml") ∷ [])
    ∷ (normal (codes ".jux") ∷ normal (codes "config.jsonc") ∷ [])
    ∷ (normal (codes ".jux") ∷ normal (codes "config.json") ∷ [])
    ∷ []

-- `Path::extension`: behind the last dot of the name, if something stands before that.
abbrev behind_dot : Option (Text × Text) → Option Text
behind_dot none = none
behind_dot (some ([], extension)) = none
behind_dot (some (c ∷ stem, extension)) = some extension

abbrev name_extension : Option Text → Option Text
name_extension none = none
name_extension (some name) = behind_dot (rsplit_once b'.' name)

abbrev pub extension : FilePath → Option Text
extension path = name_extension (file_name path)

module _ (formats : Formats) where
  unfoldable pub from_overlay_value : Value → Result Text JuxConfig
  from_overlay_value overlay = do
    value ←
        map_err (λ e. codes "failed to build default config: " ++ e)
          (formats.to_value default_config)
    reject_null_values overlay (codes "config")
    map_err (λ e. codes "invalid config shape: " ++ e)
        (formats.from_value (merge_value value overlay))

  unfoldable pub from_yaml_str : Text → Result Text JuxConfig
  from_yaml_str input = do
    value ← map_err (λ e. codes "failed to parse YAML config: " ++ e) (formats.parse_yaml input)
    from_overlay_value value

  unfoldable pub from_jsonc_str : Text → Result Text JuxConfig
  from_jsonc_str input = do
    json ← strip_jsonc_comments input
    value ← map_err (λ e. codes "failed to parse JSONC config: " ++ e) (formats.parse_json json)
    from_overlay_value value

  abbrev from_content : Option Text → Text → Result Text JuxConfig
  from_content none content = err (codes "unsupported config file extension")
  from_content (some e) content =
      if text_eq e (codes "yaml") || text_eq e (codes "yml")
      then from_yaml_str content
      else if text_eq e (codes "json") || text_eq e (codes "jsonc")
      then from_jsonc_str content
      else err (codes "unsupported config file extension")

  module _ (files : Files) where
    abbrev pub find_config_path : FilePath → Option FilePath
    find_config_path home_dir = find files.is_file (map (join home_dir) config_relative_paths)

    abbrev load_path : Option FilePath → Result Text JuxConfig
    load_path none = ok default_config
    load_path (some path) = do
      content ← map_err (λ e. codes "failed to read config file: " ++ e) (files.read_to_string path)
      from_content (extension path) content

    -- `JuxConfigLoader::load`
    unfoldable pub load_config : FilePath → Result Text JuxConfig
    load_config home_dir = load_path (find_config_path home_dir)
