-- ===== src/Config/Samples.antt =====
-- The theorems on the configuration at concrete inputs, and runs of the code.
use jux.Base.{◌≡◌, ◌↔◌, refl, true, codes, List, [], ◌∷◌, ◌++◌, All, ok, err, arith}
use jux.Policy.Pattern.{matches}
use jux.Policy.Paths.{FilePath, root_dir, normal, normalize_path, path_to_match_string}
use jux.Policy.Filesystem.{
  WasmFilesystemAccess, WasmFilesystemDecision, requested_paths, matches_path, matches_any,
  decide_path_access,
}
use jux.Policy.Engine.{engine}
use jux.Config.Settings
use jux.Config.Settings.{FilesystemRuleConfig, JuxConfig, default_config}
use jux.Config.Resolve.{into_filesystem_rule, resolve_workdirs, into_filesystem_policy}
use jux.Config.Jsonc.{strip_from, strip_jsonc_comments, line_end}
use jux.Config.Pieces.{
  Piece, plain, quoted_text, line_comment, block_comment, strip_jsonc_comments-pieces, IsPiece,
}
use jux.Config.Merging.{
  Entries, null, bool, number, object, no_entries, entry_then, get_entry, insert_entry, merge_value,
  merge_object, reject_null_values,
}
use jux.Config.Merged.{IsDistinct, merged_entry, merge_object-get_entry}
use jux.Config.Rejecting.{HasNoNull, reject_null_values_iff}
use jux.Config.Denying.{into_filesystem_policy-deny}

abbrev some_root : FilePath
some_root = root_dir ∷ normal (codes "w") ∷ []

-- A rule that denies reading a file, and says nothing about writing it.
abbrev no_reading : FilesystemRuleConfig
no_reading = record {
  effect = Settings.RuleEffect.deny;
  base = Settings.FilesystemRuleBaseConfig.absolute;
  match_kind = Settings.MatchKindConfig.literal;
  path = codes "/key";
  permissions = Settings.FilesystemPermissionConfig.read ∷ [];
}

abbrev key_path : FilePath
key_path = root_dir ∷ normal (codes "key") ∷ []

key_matches :
    matches_any engine
      (into_filesystem_rule no_reading)
      (requested_paths (resolve_workdirs some_root []) key_path)
      (resolve_workdirs some_root [])
    ≡ ok true
unfolding matches_any matches_path requested_paths resolve_workdirs normalize_path matches
    path_to_match_string
key_matches = refl

into_filesystem_policy-deny_example :
    decide_path_access engine
      (into_filesystem_policy some_root (record { workdirs = []; rules = no_reading ∷ [] }))
      key_path
      WasmFilesystemAccess.write
    ≡ ok WasmFilesystemDecision.allow
into_filesystem_policy-deny_example =
    into_filesystem_policy-deny engine some_root key_path [] no_reading [] refl refl key_matches

abbrev some_pieces : List Piece
some_pieces =
    line_comment (codes "a") ∷ quoted_text (codes "//") ∷ plain 58 ∷ block_comment (codes "/") ∷ []

some_pieces-All : All IsPiece some_pieces
some_pieces-All = (
  (ground arith, tt),
  (
    ((ground arith, ground arith), ((ground arith, ground arith), tt)),
    ((ground arith, ground arith), ((ground arith, tt), tt)),
  ),
)

strip_jsonc_comments-pieces_example :
    strip_jsonc_comments (codes "//a" ++ line_end ∷ codes "\"//\":/*/*/")
    ≡ ok (line_end ∷ codes "\"//\":")
strip_jsonc_comments-pieces_example = strip_jsonc_comments-pieces some_pieces some_pieces-All

never_closed : strip_jsonc_comments (codes "/*/") ≡ err (codes "unterminated JSONC block comment")
unfolding strip_jsonc_comments strip_from
never_closed = refl

abbrev given : Entries
given = entry_then (codes "a") (number (codes "1")) (entry_then (codes "b") null no_entries)

abbrev laid_over : Entries
laid_over = entry_then (codes "a") (bool true) no_entries

laid_over-IsDistinct : IsDistinct laid_over
unfolding get_entry
laid_over-IsDistinct = (refl, tt)

merge_object-get_entry_example :
    get_entry (codes "a") (merge_object given laid_over)
    ≡ merged_entry (get_entry (codes "a") given) (get_entry (codes "a") laid_over)
merge_object-get_entry_example =
    merge_object-get_entry (codes "a") given laid_over laid_over-IsDistinct

both_entries :
    merge_value (object given) (object laid_over)
    ≡ object (entry_then (codes "a") (bool true) (entry_then (codes "b") null no_entries))
unfolding merge_value get_entry insert_entry
both_entries = refl

reject_null_values_iff_example :
    (reject_null_values (object given) (codes "config") ≡ ok tt) ↔ HasNoNull (object given)
reject_null_values_iff_example = reject_null_values_iff (object given) (codes "config")

null_found :
    reject_null_values (object given) (codes "config")
    ≡ err (codes "null values are not supported at config.b")
unfolding reject_null_values
null_found = refl
