-- ===== src/Wasm/Samples.antt =====
-- The theorems on the runtime and on commands at concrete inputs, and runs of the code.
use jux.Base.{
  pos, ◌≡◌, ◌↔◌, ◌⊎◌, refl, true, false, Text, codes, List, [], ◌∷◌, none, some, ok, err, is_empty,
}
use jux.Wasm.Capability.{
  PluggableRuntime, host, initial_loader, builtin_loader, builtin_loader_with, policy_client,
  default_client, apply_runtime_capabilities, WasiRunner, request, passed_on,
}
use jux.Wasm.Permissions.{
  WasmPermissions, host_directory_mapping, isolated, http_client, permitted_capabilities,
}
use jux.Wasm.Commands.{is_supported_coreutils_command, wasm_commands}
use jux.Wasm.Exec.{
  starts_with, contains, reject_shell_token, reject_shell_tokens, Packages, WasmCommandOutput,
  run_exec_command, run_coreutils_command, run_exec_command_line,
}
use jux.Wasm.Guard.{IsPlain, IsRun, run_exec_command_iff, run_exec_command_line_iff}
use jux.Policy.Engine.{engine, accepts, parse}
use jux.Policy.Filesystem.{deny_rule}
use jux.Policy.Paths.{normal}
use jux.Policy.Pattern.{matches, wildcard_matches, wildcard_to_regex, translate}
use jux.Policy.Network
use jux.Policy.Network.{
  WasmHttpMethod, get, from_http_method, WasmNetworkPolicy, AllowsFirst, decide_http_request,
  decide_http_rules, matches_request, matches_url,
}
use jux.Policy.Sandbox.{
  WasmSandboxPolicy, sandbox_default, policy_capabilities, requires_http_package_loading,
}
use jux.Policy.Enforcement.{IsErr, apply_runtime_capabilities-policy-IsErr_iff, request-policy}

-- A policy with one HTTP rule and a rule that denies every file.
abbrev policy : WasmSandboxPolicy
policy = record sandbox_default {
  filesystem = record {
    workdirs = (normal (codes "w") ∷ []) ∷ [];
    rules = deny_rule (codes "**") ∷ [];
  };
  network = record {
    http_rules =
        record {
          effect = Network.WasmHttpRuleEffect.allow;
          method = get;
          match_kind = Network.WasmHttpMatchKind.wildcard;
          pattern = codes "https://api.io/**";
        }
        ∷ [];
  };
}

abbrev before : PluggableRuntime
before = record {
  http_client = some default_client;
  networking = host;
  source_in_memory = false;
  package_loader = initial_loader;
}

abbrev after : PluggableRuntime
after = record {
  http_client = some (policy_client policy.network);
  networking = host;
  source_in_memory = false;
  package_loader = builtin_loader;
}

is_set_up : apply_runtime_capabilities true (policy_capabilities policy) before ≡ ok after
unfolding apply_runtime_capabilities policy_capabilities requires_http_package_loading
is_set_up = refl

abbrev url : Text
url = codes "https://api.io/v1"

abbrev runner : WasiRunner
runner = record { forward_host_env = false; mapped = none }

apply_runtime_capabilities-policy-IsErr_iff_example :
    IsErr (apply_runtime_capabilities false (policy_capabilities policy) before) ↔ (
      ((is_empty policy.network.http_rules ≡ true) × (requires_http_package_loading policy ≡ true))
      ⊎ ((is_empty policy.network.http_rules ≡ false) × (false ≡ false)))
apply_runtime_capabilities-policy-IsErr_iff_example =
    apply_runtime_capabilities-policy-IsErr_iff false policy before

is_passed_on : request engine (policy_client policy.network) (codes "GET") url ≡ passed_on
unfolding request from_http_method decide_http_request decide_http_rules matches_request matches_url
    matches wildcard_matches wildcard_to_regex translate accepts parse
is_passed_on = refl

request-policy_example :
    (m : WasmHttpMethod) × (from_http_method (codes "GET") ≡ some m)
    × AllowsFirst engine policy.network m url
request-policy_example =
    request-policy engine true policy before after (policy_client policy.network) (codes "GET") url
      is_set_up refl is_passed_on

abbrev permissions : WasmPermissions
permissions = record {
  filesystem = host_directory_mapping;
  environment = isolated;
  network = http_client;
}

abbrev permitted : PluggableRuntime
permitted = record before {
  http_client = some default_client;
  package_loader = builtin_loader_with default_client;
}

is_permitted :
    apply_runtime_capabilities true (permitted_capabilities permissions) before ≡ ok permitted
unfolding apply_runtime_capabilities permitted_capabilities
is_permitted = refl

-- A package that prints its arguments, and a splitter that makes the whole line one word.
abbrev echoed : WasmCommandOutput
echoed = record { success = true; exit_code = some (pos 0); stdout = codes "hi"; stderr = [] }

abbrev packages : Packages
packages = record {
  run_package = λ capabilities request. ok echoed;
  split = λ command. some (codes "echo" ∷ codes "hi" ∷ []);
}

echo_runs :
    run_exec_command packages policy (codes "/w") (codes "echo") (codes "hi" ∷ []) ≡ ok echoed
unfolding run_exec_command run_coreutils_command reject_shell_tokens reject_shell_token contains
    starts_with is_supported_coreutils_command wasm_commands
echo_runs = refl

pipe_is_rejected :
    run_exec_command packages policy (codes "/w") (codes "echo") (codes "a|b" ∷ [])
    ≡ err (codes "shell syntax is not supported: |")
unfolding run_exec_command run_coreutils_command reject_shell_tokens reject_shell_token contains
    starts_with is_supported_coreutils_command wasm_commands
pipe_is_rejected = refl

run_exec_command_iff_example :
    (run_exec_command packages policy (codes "/w") (codes "echo") (codes "hi" ∷ []) ≡ ok echoed)
    ↔ IsRun packages policy (codes "/w") (codes "echo") (codes "hi" ∷ []) echoed
run_exec_command_iff_example =
    run_exec_command_iff packages policy (codes "/w") (codes "echo") (codes "hi" ∷ []) echoed

run_exec_command_line_iff_example :
    (run_exec_command_line packages policy (codes "/w") (codes "echo hi") ≡ ok echoed) ↔ (
      IsPlain (codes "echo hi")
      × (program : Text) × (args : List Text) × (packages.split (codes "echo hi")
          ≡ some (program ∷ args))
      × IsRun packages policy (codes "/w") program args echoed)
run_exec_command_line_iff_example =
    run_exec_command_line_iff packages policy (codes "/w") (codes "echo hi") echoed
