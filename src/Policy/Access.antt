-- ===== src/Policy/Access.antt =====
-- What the filesystem policy of crates/jux-core/src/policy/wasm/filesystem.rs allows.
use jux.Base.{
  ◌≡◌, ◌≢◌, ◌↔◌, refl, Bool, true, false, ◌&&◌, Text, codes, List, [], ◌∷◌, ◌++◌, Option, none,
  some, Result, ok, err, ◌>>=◌, if◌then◌else◌, All, arith, inl, inr, ◌⊎◌, Bool-cases,
}
use jux.Policy.FirstMatch.{FirstMatch, here, later, Some, head, tail, run_iff}
use jux.Policy.Pattern.{RegexCrate, MatchPattern, wildcard, matches}
use jux.Policy.Wildcard.{RegexLaws}
use jux.Policy.Meaning.{HasNoNewline, wildcard_matches-all_total}
use jux.Policy.Paths.{
  FilePath, is_absolute, join, strip_prefix, normalize_path, path_to_match_string,
}
use jux.Policy.Normal.{strip_prefix-some, strip_prefix-append}
use jux.Policy.Filesystem.{
  WasmFilesystemAccess, read_write, WasmFilesystemDecision, allow, deny, decision_from, allows,
  WasmFilesystemRule, workdir, WasmFilesystemPolicy, read_only_workdir, read_permissions,
  requested_paths, matches_relative, matches_workdir_path, matches_path, matches_any, decide_rules,
  decide_path_access,
}

-- The path is the directory, or lies below it.
abbrev pub IsInside : FilePath → FilePath → Type 0
IsInside dir path = (relative : FilePath) × (path ≡ normalize_path dir ++ relative)

module _ (crate : RegexCrate) where
  abbrev pub Permits : WasmFilesystemAccess → WasmFilesystemRule → Type 0
  Permits access rule = decision_from (allows rule.permissions access) ≡ allow

  -- An access is allowed exactly if a rule matches one of the paths asked for, the first rule that
  -- does permits the access, and no pattern that is tried before is malformed.
  pub decide_path_access-allow_iff :
      (policy : WasmFilesystemPolicy) (path : FilePath) (access : WasmFilesystemAccess)
      → (decide_path_access crate policy path access ≡ ok allow)
        ↔ FirstMatch
            (λ r. matches_any crate r (requested_paths policy.workdirs path) policy.workdirs)
            (Permits access)
            policy.rules
  unfolding decide_path_access decide_rules
  decide_path_access-allow_iff policy path access =
      let paths = requested_paths policy.workdirs path in
      run_iff (λ r. matches_any crate r paths policy.workdirs)
        (λ r. decision_from (allows r.permissions access)) deny
        (λ rules. decide_rules crate rules paths policy.workdirs access) refl (λ r rules. refl)
        allow (λ e. cc) policy.rules

  matches_workdir_path-IsInside :
      (pattern : MatchPattern) (path : FilePath) (workdirs : List FilePath)
      → matches_workdir_path crate pattern path workdirs ≡ ok true
      → Some (λ dir. IsInside dir path) workdirs
  unfolding matches_workdir_path
  matches_workdir_path-IsInside pattern path [] h = cc
  matches_workdir_path-IsInside pattern path (dir ∷ workdirs) h =
      split (strip_prefix path (normalize_path dir)) refl h
        (matches_workdir_path-IsInside pattern path workdirs)
    where
      rest : Result Text Bool
      rest = matches_workdir_path crate pattern path workdirs

      split :
          (o : Option FilePath)
          → strip_prefix path (normalize_path dir) ≡ o
          → (matches_relative crate pattern o >>= λ matched. if matched then ok true else rest)
            ≡ ok true
          → (rest ≡ ok true → Some (λ d. IsInside d path) workdirs)
          → Some (λ d. IsInside d path) (dir ∷ workdirs)
      split none e k ih = tail (ih k)
      split (some relative) e k ih = head (relative, strip_prefix-some path _ e)

  abbrev pub IsContained : WasmFilesystemPolicy → FilePath → Type 0
  IsContained policy path = Some (λ dir. IsInside dir path) policy.workdirs

  matches_any-IsContained :
      (policy : WasmFilesystemPolicy) (rule : WasmFilesystemRule) (paths : List FilePath)
      → rule.base ≡ workdir
      → matches_any crate rule paths policy.workdirs ≡ ok true
      → Some (IsContained policy) paths
  unfolding matches_any matches_path
  matches_any-IsContained policy rule [] b h = cc
  matches_any-IsContained policy rule (path ∷ paths) b h =
      split (matches_workdir_path crate rule.pattern path policy.workdirs) refl (rw b at h)
        (matches_any-IsContained policy rule paths b)
    where
      rest : Result Text Bool
      rest = matches_any crate rule paths policy.workdirs

      split :
          (t : Result Text Bool)
          → matches_workdir_path crate rule.pattern path policy.workdirs ≡ t
          → (t >>= λ matched. if matched then ok true else rest) ≡ ok true
          → (rest ≡ ok true → Some (IsContained policy) paths)
          → Some (IsContained policy) (path ∷ paths)
      split (ok true) e k ih = head (matches_workdir_path-IsInside rule.pattern path _ e)
      split (ok false) e k ih = tail (ih k)
      split (err m) e k ih = cc

  Some-IsContained :
      (policy : WasmFilesystemPolicy) (paths : List FilePath) {P : WasmFilesystemRule → Type 0}
      {rules : List WasmFilesystemRule}
      → All (λ r. r.base ≡ workdir) rules
      → FirstMatch (λ r. matches_any crate r paths policy.workdirs) P rules
      → Some (IsContained policy) paths
  Some-IsContained policy paths bases (here {r} m p) =
      matches_any-IsContained policy r paths bases.0 m
  Some-IsContained policy paths bases (later m d) = Some-IsContained policy paths bases.1 d

  -- Containment: if all rules have the base `workdir` and an access is allowed, then one of the
  -- paths that it asks for, normalized, is a working directory or lies below one.
  pub decide_path_access-IsContained :
      (policy : WasmFilesystemPolicy) (path : FilePath) (access : WasmFilesystemAccess)
      → All (λ r. r.base ≡ workdir) policy.rules
      → decide_path_access crate policy path access ≡ ok allow
      → Some (IsContained policy) (requested_paths policy.workdirs path)
  decide_path_access-IsContained policy path access bases h =
      Some-IsContained policy _ bases ((decide_path_access-allow_iff policy path access).0 h)

-- The one path that a policy with one working directory looks at.
abbrev pub target : FilePath → FilePath → FilePath
target dir path = normalize_path (join dir path)

requested_paths-one : (dir path : FilePath) → requested_paths (dir ∷ []) path ≡ target dir path ∷ []
unfolding requested_paths join
requested_paths-one dir path = elim (Bool-cases (is_absolute path)) [ inl a ↦ rw a | inr r ↦ rw r ]

-- Below the working directory, at a path without a newline.
abbrev pub IsReadable : FilePath → FilePath → Type 0
IsReadable dir path =
    (relative : FilePath) × (target dir path ≡ normalize_path dir ++ relative)
    × HasNoNewline (path_to_match_string relative)

module _ (crate : RegexCrate) (laws : RegexLaws crate) where
  abbrev any_path : MatchPattern
  any_path = record { kind = wildcard; value = codes "**" }

  -- The test of the one rule.
  abbrev below : Option FilePath → Result Text Bool
  below o = matches_relative crate any_path o

  read_only_workdir-below :
      (dir path : FilePath) (access : WasmFilesystemAccess)
      → decide_path_access crate (read_only_workdir dir) path access ≡ (
          below (strip_prefix (target dir path) (normalize_path dir)) >>= λ matched.
          ok (decision_from (matched && allows read_permissions access)))
  unfolding decide_path_access decide_rules matches_any matches_path matches_workdir_path
  read_only_workdir-below dir path access = rw requested_paths-one (ground arith)

  below_cases :
      (dir path : FilePath) (o : Option FilePath)
      → strip_prefix (target dir path) (normalize_path dir) ≡ o
      → ((below o ≡ ok true) × IsReadable dir path) ⊎ ((below o ≡ ok false) × ¬ IsReadable dir path)
  unfolding matches
  below_cases dir path none e =
      inr (refl, λ (r, t, n). cc (strip_prefix-append (normalize_path dir) r))
  below_cases dir path (some relative) e =
      elim (wildcard_matches-all_total crate laws (path_to_match_string relative)) [
        | inl (m, n) ↦ inl (m, (relative, strip_prefix-some _ _ e, n))
        | inr (m, n) ↦ inr (m, λ (r, t, k). n (rw (same_relative r t) at k))
      ]
    where
      same_relative : (r : FilePath) → target dir path ≡ normalize_path dir ++ r → r ≡ relative
      same_relative r t = cc (strip_prefix-append (normalize_path dir) r)

  -- With a regex engine that keeps the laws, the policy `read_only_workdir` allows a read exactly
  -- of the paths that, normalized, lie in the working directory and have no newline below it.
  pub read_only_workdir-read :
      (dir path : FilePath)
      → (decide_path_access crate (read_only_workdir dir) path WasmFilesystemAccess.read ≡ ok allow)
        ↔ IsReadable dir path
  read_only_workdir-read dir path =
      rw read_only_workdir-below
        (elim (below_cases dir path (strip_prefix (target dir path) (normalize_path dir)) refl) [
          | inl (m, inside) ↦ rw m (λ _. inside, λ _. refl)
          | inr (m, outside) ↦ rw m (λ e. cc, λ inside. absurd (outside inside))
        ])

  -- With a regex engine that keeps the laws, the policy `read_only_workdir` denies every access
  -- that is not a plain read.
  read_only_workdir-write :
      (dir path : FilePath) (access : WasmFilesystemAccess)
      → access ≢ WasmFilesystemAccess.read
      → decide_path_access crate (read_only_workdir dir) path access ≡ ok deny
  read_only_workdir-write dir path access n =
      rw read_only_workdir-below
        (elim (below_cases dir path (strip_prefix (target dir path) (normalize_path dir)) refl) [
          | inl (m, inside) ↦ rw m (writes access n)
          | inr (m, outside) ↦ rw m
        ])
    where
      writes :
          (a : WasmFilesystemAccess)
          → a ≢ WasmFilesystemAccess.read
          → ◌≡◌ {A = Result Text WasmFilesystemDecision}
              (ok (decision_from (allows read_permissions a)))
              (ok deny)
      writes WasmFilesystemAccess.read k = absurd (k refl)
      writes WasmFilesystemAccess.write k = refl
      writes read_write k = refl

  -- With a regex engine that keeps the laws, if the working directory normalizes to the empty
  -- path, as `.` does, then `read_only_workdir` allows a read of every absolute path without a
  -- newline.
  pub read_only_workdir-empty :
      (dir path : FilePath)
      → normalize_path dir ≡ []
      → is_absolute path ≡ true
      → HasNoNewline (path_to_match_string (normalize_path path))
      → decide_path_access crate (read_only_workdir dir) path WasmFilesystemAccess.read ≡ ok allow
  unfolding join
  read_only_workdir-empty dir path empty abs n =
      (read_only_workdir-read dir path).1 (rw (empty, abs) (_, refl, n))
