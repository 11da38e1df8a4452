-- ===== src/Config/Settings.antt =====
-- crates/jux-core/src/config/mod.rs: the settings and their defaults. `serde`, which reads them from
-- a merged value, is left out.
use jux.Base.{ℕ, Text, codes, List, [], ◌∷◌, Option, none}
use jux.Policy.Paths.{FilePath, cur_dir}

pub data TuiTheme : Type 0 where
  dark high_contrast : TuiTheme

pub data QuitShortcut : Type 0 where
  ctrl_c ctrl_q : QuitShortcut

pub data CopyMessageShortcut : Type 0 where
  ctrl_y ctrl_shift_c : CopyMessageShortcut

pub record TuiShortcutConfig : Type 0 where
  pub quit : QuitShortcut
  pub copy_message : CopyMessageShortcut

abbrev pub default_shortcuts : TuiShortcutConfig
default_shortcuts = record { quit = ctrl_c; copy_message = ctrl_y }

pub record TuiConfig : Type 0 where
  pub theme : TuiTheme
  pub scroll_lines : ℕ
  pub shortcuts : TuiShortcutConfig

abbrev pub default_tui : TuiConfig
default_tui = record { theme = dark; scroll_lines = 5; shortcuts = default_shortcuts }

pub record ModelConfig : Type 0 where
  pub provider : Text
  pub name : Text

abbrev pub default_model : ModelConfig
default_model = record { provider = codes "deepseek"; name = codes "deepseek-chat" }

pub record AgentConfig : Type 0 where
  pub max_iterations : ℕ

abbrev pub default_agent : AgentConfig
default_agent = record { max_iterations = 20 }

pub data RuleEffect : Type 0 where
  allow deny : RuleEffect

pub data MatchKindConfig : Type 0 where
  literal regex wildcard : MatchKindConfig

pub data FilesystemRuleBaseConfig : Type 0 where
  workdir absolute : FilesystemRuleBaseConfig

pub data FilesystemPermissionConfig : Type 0 where
  read write : FilesystemPermissionConfig

pub data HttpMethodConfig : Type 0 where
  get post put patch delete head options : HttpMethodConfig

pub data LoggingLevelConfig : Type 0 where
  error warn info debug trace : LoggingLevelConfig

pub record FilesystemRuleConfig : Type 0 where
  pub effect : RuleEffect
  pub base : FilesystemRuleBaseConfig
  pub match_kind : MatchKindConfig
  pub path : Text
  pub permissions : List FilesystemPermissionConfig

-- `FilesystemRuleConfig::allow_read`
abbrev pub allow_read_config : Text → FilesystemRuleConfig
allow_read_config path = record {
  effect = allow;
  base = workdir;
  match_kind = wildcard;
  path = path;
  permissions = read ∷ [];
}

abbrev pub default_filesystem_rule : FilesystemRuleConfig
default_filesystem_rule = allow_read_config (codes "**")

pub record FilesystemConfig : Type 0 where
  pub workdirs : List FilePath
  pub rules : List FilesystemRuleConfig

abbrev pub default_filesystem : FilesystemConfig
default_filesystem = record {
  workdirs = (cur_dir ∷ []) ∷ [];
  rules = allow_read_config (codes "**") ∷ [];
}

pub record HttpRuleConfig : Type 0 where
  pub effect : RuleEffect
  pub method : HttpMethodConfig
  pub match_kind : MatchKindConfig
  pub pattern : Text

abbrev pub default_http_rule : HttpRuleConfig
default_http_rule = record { effect = deny; method = get; match_kind = literal; pattern = [] }

pub record HttpConfig : Type 0 where
  pub rules : List HttpRuleConfig

pub record NetworkConfig : Type 0 where
  pub http : HttpConfig

pub record NativeConfig : Type 0 where
  pub commands : List Text

pub record SandboxConfig : Type 0 where
  pub filesystem : FilesystemConfig
  pub network : NetworkConfig
  pub native : NativeConfig

pub record LoggingConfig : Type 0 where
  pub level : LoggingLevelConfig

abbrev pub default_logging : LoggingConfig
default_logging = record { level = info }

pub record JuxConfig : Type 0 where
  pub version : ℕ
  pub schema : Option Text
  pub model : ModelConfig
  pub agent : AgentConfig
  pub sandbox : SandboxConfig
  pub logging : LoggingConfig
  pub tui : TuiConfig

abbrev pub default_config : JuxConfig
default_config = record {
  version = 1;
  schema = none;
  model = default_model;
  agent = default_agent;
  sandbox = record {
    filesystem = default_filesystem;
    network = record { http = record { rules = [] } };
    native = record { commands = [] };
  };
  logging = default_logging;
  tui = default_tui;
}
