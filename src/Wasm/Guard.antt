-- ===== src/Wasm/Guard.antt =====
-- What the guards of crates/jux-core/src/tools/wasm/exec_tool.rs let through to the package.
use jux.Base.{
  All-map, ◌≡◌, ◌≢◌, ◌↔◌, refl, ap, Bool, true, false, Text, List, [], ◌∷◌, ◌++◌, Option, none,
  some, find, Result, ok, err, ◌>>◌, map_err, All, arith, Bool-cases, inl, inr,
}
use jux.Wasm.Capability.{WasmRuntimeError}
use jux.Wasm.Commands.{WasmCommandRequest, is_supported_coreutils_command}
use jux.Policy.Sandbox.{WasmSandboxPolicy, policy_capabilities}
use jux.Wasm.Exec.{
  starts_with, contains, rejected_tokens, rejection, reject_shell_token, reject_shell_tokens,
  WasmCommandOutput, Packages, run_coreutils_command, run_exec_command, run_parts,
  run_exec_command_line,
}

starts_with-append : (token rest : Text) → starts_with token (token ++ rest) ≡ true
unfolding starts_with
starts_with-append [] rest = refl
starts_with-append (c ∷ token) rest = ground (arith, starts_with-append token rest)

starts_with→append :
    (token value : Text) → starts_with token value ≡ true → (rest : Text) × (value ≡ token ++ rest)
unfolding starts_with
starts_with→append [] value h = (value, refl)
starts_with→append (c ∷ token) [] h = cc
starts_with→append (c ∷ token) (d ∷ value) h =
    let (rest, e) = starts_with→append token value (ground arith) in (rest, ground arith)

contains-append : (before token rest : Text) → contains token (before ++ (token ++ rest)) ≡ true
unfolding contains
contains-append [] [] [] = refl
contains-append [] [] (c ∷ rest) = refl
contains-append [] (c ∷ token) rest = rw (starts_with-append (c ∷ token) rest)
contains-append (d ∷ before) token rest = ground (arith, contains-append before token rest)

contains→append :
    (token value : Text)
    → contains token value ≡ true
    → (before rest : Text) × (value ≡ before ++ (token ++ rest))
unfolding contains
contains→append token [] h = let (rest, e) = starts_with→append token [] h in ([], rest, e)
contains→append token (c ∷ value) h = elim (Bool-cases (starts_with token (c ∷ value))) [
  | inl here ↦ let (rest, e) = starts_with→append token (c ∷ value) here in ([], rest, e)
  | inr not_here ↦
      let (before, rest, e) = contains→append token value (rw not_here at h) in
      (c ∷ before, rest, ap (◌∷◌ c) e)
]

-- No rejected token stands anywhere in the text.
abbrev pub IsPlain : Text → Type 0
IsPlain value =
    All (λ token. (before rest : Text) → value ≢ before ++ (token ++ rest)) rejected_tokens

module _ {ℓ} {A : Type ℓ} (test : A → Bool) where
  find-none : (xs : List A) → find test xs ≡ none → All (λ x. test x ≡ false) xs
  find-none [] h = tt
  find-none (x ∷ xs) h = elim (Bool-cases (test x)) [
    | inl e ↦ absurd (found (rw e at h))
    | inr e ↦ (e, find-none xs (rw e at h))
  ]
    where
      found : some x ≡ none → ⊥
      found e = cc

  All→find-none : (xs : List A) → All (λ x. test x ≡ false) xs → find test xs ≡ none
  All→find-none [] h = refl
  All→find-none (x ∷ xs) h = rw h.0 (All→find-none xs h.1)

reject_shell_token_iff : (value : Text) → (reject_shell_token value ≡ ok tt) ↔ IsPlain value
unfolding reject_shell_token
reject_shell_token_iff value = (
  λ h. All-map not_contained rejected_tokens (find-none test rejected_tokens (accepted _ h)),
  λ plain. rw (All→find-none test rejected_tokens (All-map contained_not rejected_tokens plain)),
)
  where
    test : Text → Bool
    test token = contains token value

    accepted : (o : Option Text) → rejection o ≡ ok tt → o ≡ none
    accepted none e = refl
    accepted (some token) e = cc

    not_contained :
        (token : Text)
        → test token ≡ false
        → (before rest : Text) → value ≢ before ++ (token ++ rest)
    not_contained token absent before rest e = cc (contains-append before token rest)

    contained_not :
        (token : Text)
        → ((before rest : Text) → value ≢ before ++ (token ++ rest))
        → test token ≡ false
    contained_not token n = elim (Bool-cases (test token)) [
      | inl here ↦
          let (before, rest, e) = contains→append token value here in absurd (n before rest e)
      | inr absent ↦ absent
    ]

>>-ok {ℓ} :
    {B : Type ℓ} (m : Result Text (Unit {0})) (k : Result Text B) {b : B}
    → (m >> k) ≡ ok b
    → (m ≡ ok tt) × (k ≡ ok b)
>>-ok (ok tt) k h = (refl, h)
>>-ok (err e) k h = cc

reject_shell_tokens_iff : (args : List Text) → (reject_shell_tokens args ≡ ok tt) ↔ All IsPlain args
unfolding reject_shell_tokens
reject_shell_tokens_iff [] = (λ _. tt, λ _. refl)
reject_shell_tokens_iff (arg ∷ args) = (
  λ h.
      let (first, others) = >>-ok (reject_shell_token arg) (reject_shell_tokens args) h in
      ((reject_shell_token_iff arg).0 first, (reject_shell_tokens_iff args).0 others),
  λ (first, others).
      rw ((reject_shell_token_iff arg).1 first) ((reject_shell_tokens_iff args).1 others),
)

module _ (packages : Packages) (policy : WasmSandboxPolicy) (root : Text) where
  abbrev pub exec_request : Text → List Text → WasmCommandRequest
  exec_request program args = record { program = program; args = args; host_directory = root }

  -- The program is in the catalogue, no shell token stands in it or in an argument, and the
  -- package gives this output under the capabilities of the policy.
  abbrev pub IsRun : Text → List Text → WasmCommandOutput → Type 0
  IsRun program args output =
      IsPlain program
      × All IsPlain args
      × (is_supported_coreutils_command program ≡ true)
      × (packages.run_package (policy_capabilities policy) (exec_request program args) ≡ ok output)

  ran :
      (program : Text) (args : List Text) (f : WasmRuntimeError → Text) (output : WasmCommandOutput)
      → (map_err f (
            run_coreutils_command packages (policy_capabilities policy) (exec_request program args))
          ≡ ok output)
        ↔ ((is_supported_coreutils_command program ≡ true)
            × (packages.run_package (policy_capabilities policy) (exec_request program args)
                ≡ ok output))
  unfolding run_coreutils_command
  ran program args f output = (ground arith, ground arith)

  -- A command gives an output exactly if no rejected shell token stands in the program or in an
  -- argument, the program is in the catalogue, and the package gives that output under the
  -- capabilities of the policy.
  pub run_exec_command_iff :
      (program : Text) (args : List Text) (output : WasmCommandOutput)
      → (run_exec_command packages policy root program args ≡ ok output) ↔ IsRun program args output
  unfolding run_exec_command
  run_exec_command_iff program args output = (
    λ h.
        let (plain, h') = >>-ok (reject_shell_token program) _ h in
        let (plains, h'') = >>-ok (reject_shell_tokens args) _ h' in
        let (supported, gave) = (ran program args _ output).0 h'' in
        (
          (reject_shell_token_iff program).0 plain,
          (reject_shell_tokens_iff args).0 plains,
          supported,
          gave,
        ),
    λ (plain, plains, supported, gave).
        rw ((reject_shell_token_iff program).1 plain, (reject_shell_tokens_iff args).1 plains)
          ((ran program args _ output).1 (supported, gave)),
  )

  -- A command line gives an output exactly if no rejected shell token stands in it, it splits into
  -- a program and arguments, and these give the output as a command.
  pub run_exec_command_line_iff :
      (command : Text) (output : WasmCommandOutput)
      → (run_exec_command_line packages policy root command ≡ ok output) ↔ (
          IsPlain command
          × (program : Text) × (args : List Text) × (packages.split command ≡ some (program ∷ args))
          × IsRun program args output)
  unfolding run_exec_command_line
  run_exec_command_line_iff command output = (
    λ h.
        let (plain, h') = >>-ok (reject_shell_token command) _ h in
        parts ((reject_shell_token_iff command).0 plain) (packages.split command) refl h',
    λ (plain, program, args, split, runs).
        rw ((reject_shell_token_iff command).1 plain, split)
          ((run_exec_command_iff program args output).1 runs),
  )
    where
      parts :
          IsPlain command
          → (o : Option (List Text)) → packages.split command ≡ o
          → run_parts packages policy root o ≡ ok output
          → (IsPlain command
              × (program : Text) × (args : List Text) × (packages.split command
                  ≡ some (program ∷ args))
              × IsRun program args output)
      parts plain none e h = cc
      parts plain (some []) e h = cc
      parts plain (some (program ∷ args)) e h =
          (plain, program, args, e, (run_exec_command_iff program args output).0 h)
