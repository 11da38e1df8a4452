-- ===== src/Policy/Sandbox.antt =====
-- crates/jux-core/src/policy/wasm/mod.rs, native.rs and mod.rs: the policy of the sandbox, and the
-- capabilities that follow from it.
use jux.Base.{
  Bool, true, false, ◌&&◌, not, Text, codes, text_eq, List, [], ◌∷◌, Option, none, some, any,
  is_empty, if◌then◌else◌,
}
use jux.Policy.Paths.{FilePath}
use jux.Policy.Filesystem
use jux.Policy.Filesystem.{WasmFilesystemPolicy, has_rules, read_only_workdir}
use jux.Policy.Network.{WasmNetworkPolicy}
use jux.Wasm.Capability.{
  WasmFilesystemCapability, WasmEnvironmentCapability, buffered, WasmNetworkCapability,
  WasmPackageLoadingCapability, WasmerRuntimeCapabilities,
}

pub data WasmEnvironmentPolicy : Type 0 where
  isolated : WasmEnvironmentPolicy
  allow_list : List Text → WasmEnvironmentPolicy

pub data WasmPackageSource : Type 0 where
  builtin configured_local configured_http : WasmPackageSource

abbrev is_configured_http : WasmPackageSource → Bool
is_configured_http configured_http = true
is_configured_http _ = false

pub record WasmPackageRule : Type 0 where
  pub package_name : Text
  pub version : Option Text
  pub source : WasmPackageSource

abbrev version_matches : Option Text → Option Text → Bool
version_matches none version = true
version_matches (some allowed) none = false
version_matches (some allowed) (some version) = text_eq allowed version

-- `WasmPackageRule::matches`
unfoldable pub matches_package : WasmPackageRule → Text → Option Text → Bool
matches_package rule name version =
    text_eq rule.package_name name && version_matches rule.version version

pub record WasmSandboxPolicy : Type 0 where
  pub filesystem : WasmFilesystemPolicy
  pub environment : WasmEnvironmentPolicy
  pub network : WasmNetworkPolicy
  pub packages : List WasmPackageRule

abbrev pub sandbox_default : WasmSandboxPolicy
sandbox_default = record {
  filesystem = Filesystem.disabled;
  environment = isolated;
  network = record { http_rules = [] };
  packages =
      record {
        package_name = codes "wasmer/coreutils";
        version = some (codes "1.0.25");
        source = builtin;
      }
      ∷ [];
}

unfoldable pub allows_package : WasmSandboxPolicy → Text → Option Text → Bool
unfolding matches_package
allows_package policy name version = any (λ rule. matches_package rule name version) policy.packages

unfoldable pub requires_http_package_loading : WasmSandboxPolicy → Bool
requires_http_package_loading policy = any (λ rule. is_configured_http rule.source) policy.packages

abbrev environment_capability : WasmEnvironmentPolicy → WasmEnvironmentCapability
environment_capability isolated = WasmEnvironmentCapability.isolated
environment_capability (allow_list names) = WasmEnvironmentCapability.isolated

-- `From<&WasmSandboxPolicy> for WasmerRuntimeCapabilities`
unfoldable pub policy_capabilities : WasmSandboxPolicy → WasmerRuntimeCapabilities
unfolding requires_http_package_loading
policy_capabilities policy = record {
  filesystem =
      (if has_rules policy.filesystem
        then WasmFilesystemCapability.mapped_host_directory
        else WasmFilesystemCapability.disabled);
  environment = environment_capability policy.environment;
  stdio = buffered;
  network =
      (if is_empty policy.network.http_rules
        then WasmNetworkCapability.disabled
        else WasmNetworkCapability.http_client);
  http_policy = (if is_empty policy.network.http_rules then none else some policy.network);
  package_loading =
      (if requires_http_package_loading policy
        then WasmPackageLoadingCapability.builtin_with_http_client
        else if not (is_empty policy.packages)
        then WasmPackageLoadingCapability.builtin
        else WasmPackageLoadingCapability.disabled);
}

pub record NativeCommandPolicy : Type 0 where
  pub enabled : Bool
  pub allowed_commands : List Text

abbrev pub native_disabled : NativeCommandPolicy
native_disabled = record { enabled = false; allowed_commands = [] }

pub record RuntimePolicy : Type 0 where
  pub workspace_root : FilePath
  pub wasm : WasmSandboxPolicy
  pub native : NativeCommandPolicy

abbrev pub workspace_default : FilePath → RuntimePolicy
workspace_default root = record {
  workspace_root = root;
  wasm = record sandbox_default { filesystem = read_only_workdir root };
  native = native_disabled;
}

-- `RuntimePolicy::wasm_capabilities`
abbrev pub wasm_capabilities : RuntimePolicy → WasmerRuntimeCapabilities
wasm_capabilities policy = policy_capabilities policy.wasm
