-- ===== src/Wasm/Commands.antt =====
-- crates/jux-core/src/tools/wasm/commands.rs: the commands that may be run.
use jux.Base.{Bool, ◌&&◌, Text, codes, text_eq, String, List, [], ◌∷◌, map, any}

pub record WasmCommandDefinition : Type 0 where
  pub tool_id : Text
  pub program : Text

abbrev pub coreutils_tool_id : Text
coreutils_tool_id = codes "coreutils"

abbrev pub coreutils_command : String → WasmCommandDefinition
coreutils_command program = record { tool_id = coreutils_tool_id; program = codes program }

abbrev command_names : List String
command_names =
    "arch" ∷ "base32" ∷ "base64" ∷ "basename" ∷ "cat" ∷ "cksum" ∷ "comm" ∷ "cp" ∷ "csplit" ∷ "cut"
    ∷ "date" ∷ "dircolors" ∷ "dirname" ∷ "echo" ∷ "env" ∷ "expand" ∷ "factor" ∷ "false" ∷ "fmt"
    ∷ "fold" ∷ "hashsum" ∷ "head" ∷ "join" ∷ "link" ∷ "ln" ∷ "ls" ∷ "md5sum" ∷ "mkdir" ∷ "mktemp"
    ∷ "mv" ∷ "nl" ∷ "nproc" ∷ "numfmt" ∷ "od" ∷ "paste" ∷ "printenv" ∷ "printf" ∷ "ptx" ∷ "pwd"
    ∷ "readlink" ∷ "realpath" ∷ "relpath" ∷ "rm" ∷ "rmdir" ∷ "seq" ∷ "sha1sum" ∷ "sha224sum"
    ∷ "sha256sum" ∷ "sha3-224sum" ∷ "sha3-256sum" ∷ "sha3-384sum" ∷ "sha3-512sum" ∷ "sha384sum"
    ∷ "sha3sum" ∷ "sha512sum" ∷ "shake128sum" ∷ "shake256sum" ∷ "shred" ∷ "shuf" ∷ "sleep" ∷ "sum"
    ∷ "tee" ∷ "touch" ∷ "tr" ∷ "true" ∷ "truncate" ∷ "tsort" ∷ "unexpand" ∷ "uniq" ∷ "unlink" ∷ "wc"
    ∷ "yes" ∷ []

-- `WASM_COMMANDS`
unfoldable pub wasm_commands : List WasmCommandDefinition
wasm_commands = map coreutils_command command_names

unfoldable pub available_wasm_command_names : List Text
unfolding wasm_commands
available_wasm_command_names = map (λ command. command.program) wasm_commands

unfoldable pub is_supported_coreutils_command : Text → Bool
is_supported_coreutils_command program =
    any (λ command. text_eq command.tool_id coreutils_tool_id && text_eq command.program program)
      wasm_commands

pub record WasmCommandRequest : Type 0 where
  pub program : Text
  pub args : List Text
  pub host_directory : Text
