-- ===== src/Policy/Paths.antt =====
-- `std::path` on Unix as far as the filesystem policy uses it, and `normalize_path` and
-- `path_to_match_string` of crates/jux-core/src/policy/wasm/filesystem.rs.
-- A path is the list that `Path::components` gives: `root_dir` and `cur_dir` stand first only.
use jux.Base.{
  ℕ, Bool, true, false, Option, none, some, Text, codes, text_eq, List, [], ◌∷◌, ◌++◌, map, ◌==◌,
  if◌then◌else◌, is_empty,
}

pub data Component : Type 0 where
  root_dir cur_dir parent_dir : Component
  normal : Text → Component

abbrev pub FilePath : Type 0
FilePath = List Component

abbrev pub component_eq : Component → Component → Bool
component_eq root_dir root_dir = true
component_eq cur_dir cur_dir = true
component_eq parent_dir parent_dir = true
component_eq (normal s) (normal t) = text_eq s t
component_eq _ _ = false

-- `Path::is_absolute`
abbrev pub is_absolute : FilePath → Bool
is_absolute (root_dir ∷ p) = true
is_absolute p = false

-- `PathBuf::push` of one component: a root replaces the path.
abbrev pub push : FilePath → Component → FilePath
push p root_dir = root_dir ∷ []
push p c = p ++ c ∷ []

-- `PathBuf::pop`: the root and the empty path stay.
unfoldable pub pop : FilePath → FilePath
pop [] = []
pop (root_dir ∷ []) = root_dir ∷ []
pop (c ∷ []) = []
pop (c ∷ d ∷ p) = c ∷ pop (d ∷ p)

-- `Path::components` forgets a `.` that is not the first component.
abbrev pub without_cur_dir : FilePath → FilePath
without_cur_dir (cur_dir ∷ q) = q
without_cur_dir q = q

-- `Path::join`
unfoldable pub join : FilePath → FilePath → FilePath
join p q = if is_absolute q then q else if is_empty p then q else p ++ without_cur_dir q

-- `Path::strip_prefix`: what follows the components of the second path.
unfoldable pub strip_prefix : FilePath → FilePath → Option FilePath
strip_prefix p [] = some p
strip_prefix [] (c ∷ base) = none
strip_prefix (d ∷ p) (c ∷ base) = if component_eq d c then strip_prefix p base else none

abbrev pub component_text : Component → Text
component_text root_dir = codes "/"
component_text cur_dir = codes "."
component_text parent_dir = codes ".."
component_text (normal name) = name

abbrev names_text : Component → FilePath → Text
names_text c [] = component_text c
names_text c (d ∷ p) = component_text c ++ codes "/" ++ names_text d p

-- The text of a path that was built by `push`, or of a suffix of its components.
unfoldable pub path_text : FilePath → Text
path_text [] = []
path_text (root_dir ∷ []) = codes "/"
path_text (root_dir ∷ c ∷ p) = b'/' ∷ names_text c p
path_text (c ∷ p) = names_text c p

-- The loop of `normalize_path`: the path built so far, and the components that are left.
unfoldable pub normalize_from : FilePath → FilePath → FilePath
normalize_from normalized [] = normalized
normalize_from normalized (cur_dir ∷ rest) = normalize_from normalized rest
normalize_from normalized (parent_dir ∷ rest) = normalize_from (pop normalized) rest
normalize_from normalized (normal part ∷ rest) = normalize_from (push normalized (normal part)) rest
normalize_from normalized (root_dir ∷ rest) = normalize_from (push normalized root_dir) rest

unfoldable pub normalize_path : FilePath → FilePath
unfolding normalize_from pop
normalize_path path = normalize_from [] path

abbrev forward_slash : ℕ → ℕ
forward_slash c = if c == b'\\' then b'/' else c

-- The replacement of every `\` by `/`.
unfoldable pub path_to_match_string : FilePath → Text
unfolding path_text
path_to_match_string path = map forward_slash (path_text path)
