-- ===== src/Wasm/Capability.antt =====
-- crates/jux-core/src/tools/wasm/capability.rs: what the Wasmer runtime is given.
-- `wasmer_wasix` is not modelled: its runtime and runner are the settings that the code makes, and
-- whether it has a default HTTP client is a parameter.
use jux.Base.{Bool, true, false, Text, codes, Option, none, some, ◌++◌, Result, ok, err, ◌>>=◌}
use jux.Policy.Pattern.{RegexCrate}
use jux.Policy.Network.{
  WasmHttpMethod, get, post, put, patch, delete, head, options, from_http_method, WasmHttpDecision,
  WasmNetworkPolicy, decide_http_request,
}

pub data WasmFilesystemCapability : Type 0 where
  disabled mapped_host_directory : WasmFilesystemCapability

pub data WasmEnvironmentCapability : Type 0 where
  isolated forward_host : WasmEnvironmentCapability

pub data WasmStdioCapability : Type 0 where
  buffered : WasmStdioCapability

pub data WasmNetworkCapability : Type 0 where
  disabled http_client : WasmNetworkCapability

pub data WasmPackageLoadingCapability : Type 0 where
  disabled builtin builtin_with_http_client : WasmPackageLoadingCapability

pub record WasmerRuntimeCapabilities : Type 0 where
  pub filesystem : WasmFilesystemCapability
  pub environment : WasmEnvironmentCapability
  pub stdio : WasmStdioCapability
  pub network : WasmNetworkCapability
  pub http_policy : Option WasmNetworkPolicy
  pub package_loading : WasmPackageLoadingCapability

-- `Default`
abbrev pub default_capabilities : WasmerRuntimeCapabilities
default_capabilities = record {
  filesystem = WasmFilesystemCapability.mapped_host_directory;
  environment = isolated;
  stdio = buffered;
  network = WasmNetworkCapability.http_client;
  http_policy = none;
  package_loading = builtin_with_http_client;
}

-- The default client, or `PolicyHttpClient` around it.
pub data HttpClient : Type 0 where
  default_client : HttpClient
  policy_client : WasmNetworkPolicy → HttpClient

pub data Networking : Type 0 where
  host unsupported : Networking

pub data PackageLoader : Type 0 where
  initial_loader builtin_loader : PackageLoader
  builtin_loader_with : HttpClient → PackageLoader

-- The settings of a `PluggableRuntime` that the code changes.
pub record PluggableRuntime : Type 0 where
  pub http_client : Option HttpClient
  pub networking : Networking
  pub source_in_memory : Bool
  pub package_loader : PackageLoader

pub data WasmRuntimeError : Type 0 where
  compile instantiate export call io run unsupported_command : Text → WasmRuntimeError

-- `configured_http_client`; `available` tells whether `wasmer_wasix` has a default client.
unfoldable pub configured_http_client :
    Bool → Option WasmNetworkPolicy → Result WasmRuntimeError HttpClient
configured_http_client false policy = err (run (codes "wasm http client is unavailable"))
configured_http_client true none = ok default_client
configured_http_client true (some policy) = ok (policy_client policy)

-- The first `match` of `apply_runtime_capabilities`.
abbrev pub apply_network :
    Bool
    → WasmNetworkCapability
    → Option WasmNetworkPolicy
    → PluggableRuntime
    → Result WasmRuntimeError (Option HttpClient × PluggableRuntime)
apply_network available WasmNetworkCapability.disabled policy runtime =
    ok (
      none,
      record runtime { http_client = none; networking = unsupported; source_in_memory = true },
    )
apply_network available WasmNetworkCapability.http_client policy runtime =
    configured_http_client available policy >>= λ client. ok (some client, runtime)

-- The second `match`.
abbrev pub apply_package_loading :
    WasmPackageLoadingCapability
    → Option HttpClient
    → PluggableRuntime
    → Result WasmRuntimeError PluggableRuntime
apply_package_loading WasmPackageLoadingCapability.disabled client runtime = ok runtime
apply_package_loading builtin client runtime =
    ok (record runtime { package_loader = builtin_loader })
apply_package_loading builtin_with_http_client none runtime =
    err (run (codes "wasm package loading requires an enabled http client"))
apply_package_loading builtin_with_http_client (some client) runtime =
    ok (record runtime { package_loader = builtin_loader_with client })

abbrev pub set_http_client : Option HttpClient → PluggableRuntime → PluggableRuntime
set_http_client none runtime = runtime
set_http_client (some client) runtime = record runtime { http_client = some client }

unfoldable pub apply_runtime_capabilities :
    Bool → WasmerRuntimeCapabilities → PluggableRuntime → Result WasmRuntimeError PluggableRuntime
unfolding configured_http_client
apply_runtime_capabilities available capabilities runtime = do
  (client, networked) ←
      apply_network available capabilities.network capabilities.http_policy runtime
  loaded ← apply_package_loading capabilities.package_loading client networked
  ok (set_http_client client loaded)

-- The settings of a `WasiRunner`: whether host variables are forwarded, and the host directory
-- that is mapped to `/workspace`.
pub record WasiRunner : Type 0 where
  pub forward_host_env : Bool
  pub mapped : Option Text

abbrev forwards : WasmEnvironmentCapability → Bool
forwards isolated = false
forwards forward_host = true

abbrev map_directory : WasmFilesystemCapability → Text → Option Text → Option Text
map_directory WasmFilesystemCapability.disabled directory before = before
map_directory mapped_host_directory directory before = some directory

unfoldable pub apply_runner_capabilities :
    WasiRunner → WasmerRuntimeCapabilities → Text → WasiRunner
apply_runner_capabilities runner capabilities host_directory = record runner {
  forward_host_env = forwards capabilities.environment;
  mapped = map_directory capabilities.filesystem host_directory runner.mapped;
}

-- What becomes of a request: it is passed to the inner client, or refused with a message.
pub data RequestOutcome : Type 0 where
  passed_on : RequestOutcome
  refused : Text → RequestOutcome

abbrev pub debug_name : WasmHttpMethod → Text
debug_name get = codes "Get"
debug_name post = codes "Post"
debug_name put = codes "Put"
debug_name patch = codes "Patch"
debug_name delete = codes "Delete"
debug_name head = codes "Head"
debug_name options = codes "Options"

abbrev pub answer_decision : WasmHttpMethod → Text → Result Text WasmHttpDecision → RequestOutcome
answer_decision method url (ok WasmHttpDecision.allow) = passed_on
answer_decision method url (ok WasmHttpDecision.deny) =
    refused
      (codes "wasm HTTP request denied by policy: " ++ (debug_name method ++ (codes " " ++ url)))
answer_decision method url (err error) =
    refused (codes "wasm HTTP policy evaluation failed: " ++ error)

module _ (crate : RegexCrate) where
  abbrev pub request_method :
      WasmNetworkPolicy → Text → Text → Option WasmHttpMethod → RequestOutcome
  request_method policy name url none = refused (
      codes "wasm HTTP request denied by policy: unsupported method "
      ++ (name ++ (codes " " ++ url)))
  request_method policy name url (some method) =
      answer_decision method url (decide_http_request crate policy method url)

  -- `PolicyHttpClient::request`; the default client takes every request.
  unfoldable pub request : HttpClient → Text → Text → RequestOutcome
  request default_client name url = passed_on
  request (policy_client policy) name url = request_method policy name url (from_http_method name)
