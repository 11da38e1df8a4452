-- ===== src/Wasm/Exec.antt =====
-- crates/jux-core/src/tools/wasm/exec_tool.rs and the guard of runtime.rs: running one command.
-- The packaged command itself (Wasmer) and `shlex::split` are parameters.
use jux.Base.{
  ℤ, Bool, true, false, ◌||◌, ◌&&◌, ◌==◌, Text, codes, List, [], ◌∷◌, ◌++◌, Option, none, some,
  find, Result, ok, err, ◌>>◌, map_err, if◌then◌else◌,
}
use jux.Wasm.Capability.{
  WasmerRuntimeCapabilities, WasmRuntimeError, compile, instantiate, export, call, io, run,
  unsupported_command,
}
use jux.Wasm.Commands.{WasmCommandRequest, is_supported_coreutils_command}
use jux.Policy.Sandbox.{WasmSandboxPolicy, policy_capabilities}

unfoldable pub starts_with : Text → Text → Bool
starts_with [] value = true
starts_with (c ∷ token) [] = false
starts_with (c ∷ token) (d ∷ value) = c == d && starts_with token value

-- `str::contains`
unfoldable pub contains : Text → Text → Bool
unfolding starts_with
contains token [] = starts_with token []
contains token (c ∷ value) = starts_with token (c ∷ value) || contains token value

abbrev pub rejected_tokens : List Text
rejected_tokens =
    codes "&&"
    ∷ codes "||"
    ∷ codes ";"
    ∷ codes "|"
    ∷ codes ">"
    ∷ codes "<"
    ∷ codes "`"
    ∷ codes "$("
    ∷ (10 ∷ [])
    ∷ (13 ∷ [])
    ∷ codes "*"
    ∷ codes "?"
    ∷ []

abbrev pub rejection : Option Text → Result Text (Unit {0})
rejection none = ok tt
rejection (some token) = err (codes "shell syntax is not supported: " ++ token)

unfoldable pub reject_shell_token : Text → Result Text (Unit {0})
reject_shell_token value = rejection (find (λ token. contains token value) rejected_tokens)

-- The loop over the arguments.
unfoldable pub reject_shell_tokens : List Text → Result Text (Unit {0})
reject_shell_tokens [] = ok tt
reject_shell_tokens (arg ∷ args) = do
  let rest = reject_shell_tokens args
  reject_shell_token arg
  rest

pub record WasmCommandOutput : Type 0 where
  pub success : Bool
  pub exit_code : Option ℤ
  pub stdout : Text
  pub stderr : Text

-- `Display`
abbrev pub error_text : WasmRuntimeError → Text
error_text (compile message) = codes "wasm compile error: " ++ message
error_text (instantiate message) = codes "wasm instantiate error: " ++ message
error_text (export message) = codes "wasm export error: " ++ message
error_text (call message) = codes "wasm call error: " ++ message
error_text (io message) = codes "wasm io error: " ++ message
error_text (run message) = codes "wasm run error: " ++ message
error_text (unsupported_command command) = codes "unsupported coreutils command: " ++ command

-- The command in the package, under given capabilities, and `shlex::split`.
pub record Packages : Type 0 where
  pub run_package :
      WasmerRuntimeCapabilities → WasmCommandRequest → Result WasmRuntimeError WasmCommandOutput
  pub split : Text → Option (List Text)

module _ (packages : Packages) where
  -- `WasmerRuntime::run_coreutils_command`
  unfoldable pub run_coreutils_command :
      WasmerRuntimeCapabilities → WasmCommandRequest → Result WasmRuntimeError WasmCommandOutput
  run_coreutils_command capabilities request =
      if is_supported_coreutils_command request.program
      then packages.run_package capabilities request
      else err (unsupported_command request.program)

  unfoldable pub run_exec_command :
      WasmSandboxPolicy → Text → Text → List Text → Result Text WasmCommandOutput
  run_exec_command policy root program args = do
    reject_shell_token program
    reject_shell_tokens args
    map_err (λ error. codes "wasi coreutils execution failed: " ++ error_text error)
        (run_coreutils_command (policy_capabilities policy)
          (record { program = program; args = args; host_directory = root }))

  abbrev pub run_parts :
      WasmSandboxPolicy → Text → Option (List Text) → Result Text WasmCommandOutput
  run_parts policy root none = err (codes "invalid command syntax")
  run_parts policy root (some []) = err (codes "command cannot be empty")
  run_parts policy root (some (program ∷ args)) = run_exec_command policy root program args

  unfoldable pub run_exec_command_line :
      WasmSandboxPolicy → Text → Text → Result Text WasmCommandOutput
  run_exec_command_line policy root command = do
    reject_shell_token command
    run_parts policy root (packages.split command)
