-- ===== src/Policy/Samples.antt =====
-- The theorems on the sandbox policy at concrete inputs, and runs of the code.
use jux.Base.{◌≡◌, ◌↔◌, refl, true, false, codes, [], ◌∷◌, ◌++◌, ok, arith}
use jux.Policy.Language.{pieces}
use jux.Policy.Pattern.{translate, push_escaped_char, wildcard_to_regex, wildcard_matches, matches}
use jux.Policy.Wildcard.{AnswersPieces, wildcard_matches-Answers}
use jux.Policy.Meaning.{
  escape_all, wildcard_matches-escape_all, wildcard_matches-all, HasNoNewline, separators,
  stays_in_segments, separators-wildcard_matches,
}
use jux.Policy.Paths.{
  root_dir, parent_dir, cur_dir, normal, FilePath, join, strip_prefix, normalize_path,
  path_to_match_string,
}
use jux.Policy.Normal.{IsNormal, normalize_path-IsNormal}
use jux.Policy.Filesystem.{
  WasmFilesystemAccess, WasmFilesystemPolicy, allow, deny, deny_rule, allow_read, read_only_workdir,
  requested_paths, matches_any, matches_path, matches_workdir_path, decide_rules,
  decide_path_access,
}
use jux.Policy.FirstMatch.{FirstMatch, Some}
use jux.Policy.Access.{
  IsContained, Permits, decide_path_access-allow_iff, decide_path_access-IsContained, IsReadable,
  read_only_workdir-read, read_only_workdir-empty,
}
use jux.Policy.Network
use jux.Policy.Network.{
  WasmHttpMethod, get, WasmNetworkPolicy, AllowsFirst, decide_http_request, decide_http_rules,
  matches_request, matches_url, decide_http_request-allow_iff, from_http_method,
}
use jux.Policy.Engine.{engine, engine_laws, accepts, parse}

-- The code's own examples of patterns, with the small engine in the place of the crate.
star_in_segment :
    wildcard_matches engine (codes "/workspace/*.rs") (codes "/workspace/main.rs") ≡ ok true
unfolding wildcard_matches wildcard_to_regex translate accepts parse
star_in_segment = refl

star_across_segments :
    wildcard_matches engine (codes "/workspace/*.rs") (codes "/workspace/src/main.rs") ≡ ok false
unfolding wildcard_matches wildcard_to_regex translate accepts parse
star_across_segments = refl

double_star :
    wildcard_matches engine (codes "/workspace/**/*.rs") (codes "/workspace/src/main.rs") ≡ ok true
unfolding wildcard_matches wildcard_to_regex translate accepts parse
double_star = refl

double_star_none :
    wildcard_matches engine (codes "/workspace/**/*.rs") (codes "/workspace/main.rs") ≡ ok true
unfolding wildcard_matches wildcard_to_regex translate accepts parse
double_star_none = refl

escaped_star :
    wildcard_matches engine (codes "/workspace/\\*.txt") (codes "/workspace/*.txt") ≡ ok true
unfolding wildcard_matches wildcard_to_regex translate push_escaped_char accepts parse
escaped_star = refl

abbrev workspace : FilePath
workspace = root_dir ∷ normal (codes "workspace") ∷ []

-- ../workspace/a/../b
abbrev request : FilePath
request =
    parent_dir
    ∷ normal (codes "workspace")
    ∷ normal (codes "a")
    ∷ parent_dir
    ∷ normal (codes "b")
    ∷ []

normalized : normalize_path (join workspace request) ≡ workspace ++ normal (codes "b") ∷ []
unfolding normalize_path join
normalized = refl

abbrev outside : FilePath
outside = root_dir ∷ normal (codes "etc") ∷ []

outside_is_denied :
    decide_path_access engine (read_only_workdir workspace) outside WasmFilesystemAccess.read
    ≡ ok deny
unfolding decide_path_access decide_rules matches_any matches_path matches_workdir_path
    requested_paths normalize_path strip_prefix
outside_is_denied = refl

wildcard_matches-Answers_example :
    AnswersPieces
      (pieces (codes "a*"))
      (codes "ab")
      (wildcard_matches engine (codes "a*") (codes "ab"))
wildcard_matches-Answers_example =
    wildcard_matches-Answers engine engine_laws (codes "a*") (codes "ab")

wildcard_matches-escape_all_example :
    (wildcard_matches engine (escape_all (codes "a*")) (codes "ab") ≡ ok true)
    ↔ (codes "ab" ≡ codes "a*")
wildcard_matches-escape_all_example =
    wildcard_matches-escape_all engine engine_laws (codes "a*") (codes "ab")

one_star_matches : wildcard_matches engine (codes "src/*.rs") (codes "src/main.rs") ≡ ok true
unfolding wildcard_matches wildcard_to_regex translate accepts parse
one_star_matches = refl

one_star_stays : stays_in_segments (codes "src/*.rs") ≡ true
unfolding stays_in_segments
one_star_stays = refl

separators-wildcard_matches_example :
    separators (codes "src/main.rs") ≡ separators (codes "src/*.rs")
separators-wildcard_matches_example =
    separators-wildcard_matches engine engine_laws (codes "src/*.rs") (codes "src/main.rs")
      one_star_stays one_star_matches

normalize_path-IsNormal_example : IsNormal (normalize_path request)
normalize_path-IsNormal_example = normalize_path-IsNormal request

abbrev guarded : WasmFilesystemPolicy
guarded = record {
  workdirs = workspace ∷ [];
  rules = deny_rule (codes "secret/**") ∷ allow_read (codes "**") ∷ [];
}

decide_path_access-allow_iff_example :
    (decide_path_access engine guarded request WasmFilesystemAccess.read ≡ ok allow)
    ↔ FirstMatch
        (λ r. matches_any engine r (requested_paths guarded.workdirs request) guarded.workdirs)
        (Permits engine WasmFilesystemAccess.read)
        guarded.rules
decide_path_access-allow_iff_example =
    decide_path_access-allow_iff engine guarded request WasmFilesystemAccess.read

guarded_read : decide_path_access engine guarded request WasmFilesystemAccess.read ≡ ok allow
unfolding decide_path_access decide_rules matches_any matches_path matches_workdir_path matches
    requested_paths normalize_path strip_prefix join path_to_match_string wildcard_matches
    wildcard_to_regex translate accepts parse
guarded_read = refl

decide_path_access-IsContained_example :
    Some (IsContained engine guarded) (requested_paths guarded.workdirs request)
decide_path_access-IsContained_example =
    decide_path_access-IsContained engine guarded request WasmFilesystemAccess.read
      (refl, (refl, tt)) guarded_read

read_only_workdir-read_example :
    (decide_path_access engine (read_only_workdir workspace) request WasmFilesystemAccess.read
      ≡ ok allow)
    ↔ IsReadable workspace request
read_only_workdir-read_example = read_only_workdir-read engine engine_laws workspace request

dot_is_empty : normalize_path (cur_dir ∷ []) ≡ []
unfolding normalize_path
dot_is_empty = refl

abbrev passwd : FilePath
passwd = root_dir ∷ normal (codes "etc") ∷ normal (codes "passwd") ∷ []

passwd-HasNoNewline : HasNoNewline (path_to_match_string (normalize_path passwd))
unfolding path_to_match_string normalize_path
passwd-HasNoNewline = omega arith

read_only_workdir-empty_example :
    decide_path_access engine (read_only_workdir (cur_dir ∷ [])) passwd WasmFilesystemAccess.read
    ≡ ok allow
read_only_workdir-empty_example =
    read_only_workdir-empty engine engine_laws (cur_dir ∷ []) passwd dot_is_empty refl
      passwd-HasNoNewline

abbrev api_only : WasmNetworkPolicy
api_only = record {
  http_rules =
      record {
        effect = Network.WasmHttpRuleEffect.allow;
        method = get;
        match_kind = Network.WasmHttpMatchKind.wildcard;
        pattern = codes "https://api.io/**";
      }
      ∷ [];
}

decide_http_request-allow_iff_example :
    (decide_http_request engine api_only get (codes "https://api.io/v1")
      ≡ ok Network.WasmHttpDecision.allow)
    ↔ AllowsFirst engine api_only get (codes "https://api.io/v1")
decide_http_request-allow_iff_example =
    decide_http_request-allow_iff engine api_only get (codes "https://api.io/v1")

wildcard_matches-all_example :
    (wildcard_matches engine (codes "**") (10 ∷ []) ≡ ok true) ↔ HasNoNewline (10 ∷ [])
wildcard_matches-all_example = wildcard_matches-all engine engine_laws (10 ∷ [])
