-- ===== src/Policy/Enforcement.antt =====
-- What of the policies of crates/jux-core/src/policy reaches the runtime that
-- crates/jux-core/src/tools/wasm/capability.rs sets up.
use jux.Base.{
  ◌≡◌, ◌↔◌, refl, Bool, true, false, Text, Option, none, some, is_empty, ◌⊎◌, inl, inr, Result, ok,
  err, arith,
}
use jux.Policy.Pattern.{RegexCrate}
use jux.Policy.Network.{
  WasmHttpMethod, from_http_method, WasmHttpDecision, WasmNetworkPolicy, AllowsFirst,
  decide_http_request-allow_iff,
}
use jux.Wasm.Capability.{
  HttpClient, policy_client, PluggableRuntime, WasmRuntimeError, apply_runtime_capabilities,
  WasiRunner, apply_runner_capabilities, passed_on, request, request_method, answer_decision,
}
use jux.Wasm.Permissions.{WasmPermissions, permitted_capabilities}
use jux.Policy.Sandbox.{WasmSandboxPolicy, policy_capabilities, requires_http_package_loading}

-- Under the capabilities of any policy the host's environment variables are not forwarded, also if
-- the policy lists some as allowed.
pub forward_host_env-policy :
    (policy : WasmSandboxPolicy) (runner : WasiRunner) (directory : Text)
    → (apply_runner_capabilities runner (policy_capabilities policy) directory).forward_host_env
      ≡ false
unfolding apply_runner_capabilities policy_capabilities
forward_host_env-policy policy runner directory = ground arith

abbrev pub IsErr : Result WasmRuntimeError PluggableRuntime → Type 0
IsErr (ok runtime) = ⊥
IsErr (err e) = Unit

-- Setting up a runtime under a policy fails exactly if a package is to be loaded over HTTP while
-- there is no HTTP rule, or if there are HTTP rules and no client is available.
pub apply_runtime_capabilities-policy-IsErr_iff :
    (available : Bool) (policy : WasmSandboxPolicy) (runtime : PluggableRuntime)
    → IsErr (apply_runtime_capabilities available (policy_capabilities policy) runtime) ↔ (
        ((is_empty policy.network.http_rules ≡ true)
          × (requires_http_package_loading policy ≡ true))
        ⊎ ((is_empty policy.network.http_rules ≡ false) × (available ≡ false)))
unfolding apply_runtime_capabilities policy_capabilities
apply_runtime_capabilities-policy-IsErr_iff available policy runtime = (ground arith, ground arith)

-- The client of a runtime under the policy is none, or the policy's own.
http_client-policy :
    (available : Bool) (policy : WasmSandboxPolicy) (before after : PluggableRuntime)
    → apply_runtime_capabilities available (policy_capabilities policy) before ≡ ok after
    → (after.http_client ≡ none) ⊎ (after.http_client ≡ some (policy_client policy.network))
unfolding apply_runtime_capabilities policy_capabilities
http_client-policy available policy before after h = ground arith

module _ (crate : RegexCrate) where
  answered_passed_on :
      (policy : WasmNetworkPolicy) (name url : Text) (o : Option WasmHttpMethod)
      → request_method crate policy name url o ≡ passed_on
      → (m : WasmHttpMethod) × (o ≡ some m) × AllowsFirst crate policy m url
  answered_passed_on policy name url none h = cc
  answered_passed_on policy name url (some m) h =
      (m, refl, (decide_http_request-allow_iff crate policy m url).0 (allowed _ h))
    where
      allowed :
          (r : Result Text WasmHttpDecision)
          → answer_decision m url r ≡ passed_on
          → r ≡ ok WasmHttpDecision.allow
      allowed (ok WasmHttpDecision.allow) e = refl
      allowed (ok WasmHttpDecision.deny) e = cc
      allowed (err error) e = cc

  -- If a runtime is set up under a policy, has a client, and the client passes a request on, then
  -- the request has a known method, and the first rule of the policy that matches it allows it.
  pub request-policy :
      (available : Bool) (policy : WasmSandboxPolicy) (before after : PluggableRuntime)
      (client : HttpClient) (name url : Text)
      → apply_runtime_capabilities available (policy_capabilities policy) before ≡ ok after
      → after.http_client ≡ some client
      → request crate client name url ≡ passed_on
      → (m : WasmHttpMethod) × (from_http_method name ≡ some m)
        × AllowsFirst crate policy.network m url
  request-policy available policy before after client name url set_up has sent =
      elim (http_client-policy available policy before after set_up) [
        | inl missing ↦ cc
        | inr own ↦
            let same : client ≡ policy_client policy.network = cc in
            unfold request in
            answered_passed_on policy.network name url (from_http_method name) (rw same at sent)
      ]

-- If a runtime is set up under permissions alone and has a client, then that client passes every
-- request on.
pub request-permissions :
    (crate : RegexCrate) (available : Bool) (permissions : WasmPermissions)
    (before after : PluggableRuntime) (client : HttpClient) (name url : Text)
    → apply_runtime_capabilities available (permitted_capabilities permissions) before ≡ ok after
    → after.http_client ≡ some client
    → request crate client name url ≡ passed_on
unfolding apply_runtime_capabilities permitted_capabilities request
request-permissions crate available permissions before after client name url set_up has =
    ground arith
