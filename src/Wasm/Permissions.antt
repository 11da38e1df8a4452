-- ===== src/Wasm/Permissions.antt =====
-- crates/jux-core/src/tools/wasm/permissions.rs: permissions become capabilities.
use jux.Base.{none}
use jux.Wasm.Capability.{
  WasmFilesystemCapability, WasmEnvironmentCapability, buffered, WasmNetworkCapability,
  WasmPackageLoadingCapability, WasmerRuntimeCapabilities,
}

pub data WasmFilesystemPermission : Type 0 where
  disabled host_directory_mapping : WasmFilesystemPermission

pub data WasmEnvironmentPermission : Type 0 where
  isolated forward_host : WasmEnvironmentPermission

pub data WasmNetworkPermission : Type 0 where
  disabled http_client : WasmNetworkPermission

pub record WasmPermissions : Type 0 where
  pub filesystem : WasmFilesystemPermission
  pub environment : WasmEnvironmentPermission
  pub network : WasmNetworkPermission

-- `Default`
abbrev pub default_permissions : WasmPermissions
default_permissions = record {
  filesystem = WasmFilesystemPermission.disabled;
  environment = isolated;
  network = WasmNetworkPermission.disabled;
}

abbrev filesystem_capability : WasmFilesystemPermission → WasmFilesystemCapability
filesystem_capability WasmFilesystemPermission.disabled = WasmFilesystemCapability.disabled
filesystem_capability host_directory_mapping = WasmFilesystemCapability.mapped_host_directory

abbrev environment_capability : WasmEnvironmentPermission → WasmEnvironmentCapability
environment_capability isolated = WasmEnvironmentCapability.isolated
environment_capability forward_host = WasmEnvironmentCapability.forward_host

abbrev network_capability : WasmNetworkPermission → WasmNetworkCapability
network_capability WasmNetworkPermission.disabled = WasmNetworkCapability.disabled
network_capability http_client = WasmNetworkCapability.http_client

abbrev package_loading_capability : WasmNetworkPermission → WasmPackageLoadingCapability
package_loading_capability WasmNetworkPermission.disabled = WasmPackageLoadingCapability.builtin
package_loading_capability http_client = WasmPackageLoadingCapability.builtin_with_http_client

-- `From<WasmPermissions>`
unfoldable pub permitted_capabilities : WasmPermissions → WasmerRuntimeCapabilities
permitted_capabilities permissions = record {
  filesystem = filesystem_capability permissions.filesystem;
  environment = environment_capability permissions.environment;
  stdio = buffered;
  network = network_capability permissions.network;
  http_policy = none;
  package_loading = package_loading_capability permissions.network;
}
