-- ===== src/Agent/Answering.antt =====
-- crates/jux-core/src/main_loop/mod.rs: an input answers the call that a run waits for.
use jux.Base.{
  Bool, true, false, not, ◌&&◌, ◌||◌, Text, text_eq, text_eq_refl, text_eq_iff, List, [], ◌∷◌, ◌++◌,
  any, Option, none, some, ◌≡◌, ◌≢◌, refl, ap, ◌⊎◌, inl, inr, arith, if◌then◌else◌,
}
use mathlib.Core.Path.{subst}
use mathlib.Core.Option.{some-injective}
use jux.State.Model.{Step, StepPayload, AssistantResponseItem}
use jux.Agent.Values.{Values}
use jux.Agent.Messages.{filter_map, add_some, human_input_tool_name}
use jux.Agent.Monad.{RunLoopContext}
use jux.Agent.HumanInput.{
  ToolCallRequest, SkillInvocation, PendingHumanInput, main, skill, find_map_last, or_else,
  pending_in, pending_main, pending_skill, unresolved_call, unresolved_item, from_assistant_item,
  unresolved_human_input_call, resolved_main, resolved_main_id, resolved_skill, resolved_skill_id,
  skill_invocation, invocation_in, find_map, latest_pending_human_input,
}
use jux.Agent.Requests.{input_payload}

or_else-some :
    {A : Type 0} (x y : Option A) {a : A} → or_else x y ≡ some a → (x ≡ some a) ⊎ (y ≡ some a)
or_else-some none y h = inr h
or_else-some (some b) y h = inl h

-- What is found is found in an element.
find_map_last-some :
    {A B : Type 0} (f : A → Option B) (xs : List A) {b : B}
    → find_map_last f xs ≡ some b
    → (a : A) × (f a ≡ some b)
find_map_last-some f [] h = cc
find_map_last-some f (x ∷ xs) h = elim (or_else-some (find_map_last f xs) (f x) h) [
  | inl later ↦ find_map_last-some f xs later
  | inr here ↦ (x, here)
]

find_map-some :
    {A B : Type 0} (f : A → Option B) (xs : List A) {b : B}
    → find_map f xs ≡ some b
    → (a : A) × (f a ≡ some b)
find_map-some f [] h = cc
find_map-some f (x ∷ xs) h = elim (or_else-some (f x) (find_map f xs) h) [
  | inl here ↦ (x, here)
  | inr later ↦ find_map-some f xs later
]

any-append :
    {A : Type 0} (test : A → Bool) (xs ys : List A)
    → any test (xs ++ ys) ≡ (any test xs || any test ys)
any-append test [] ys = refl
any-append test (x ∷ xs) ys = rw (any-append test xs ys) (ground arith)

filter_map-append :
    {A B : Type 0} (f : A → Option B) (xs ys : List A)
    → filter_map f (xs ++ ys) ≡ filter_map f xs ++ filter_map f ys
filter_map-append f [] ys = refl
filter_map-append f (x ∷ xs) ys = rw (filter_map-append f xs ys) (add_some-append (f x) _ _)
  where
    add_some-append :
        {B : Type 0} (o : Option B) (bs cs : List B) → add_some o (bs ++ cs) ≡ add_some o bs ++ cs
    add_some-append none bs cs = refl
    add_some-append (some b) bs cs = refl

module _ {Json : Type 0} where
  unresolved_call-some :
      (is_resolved : Text → Bool) (c : ToolCallRequest Json) {call : ToolCallRequest Json}
      → unresolved_call is_resolved c ≡ some call
      → is_resolved call.id ≡ false
  unresolved_call-some is_resolved c {call} h =
      go (text_eq c.name human_input_tool_name) (is_resolved c.id) refl h
    where
      go :
          (is_named resolved : Bool)
          → is_resolved c.id ≡ resolved
          → (if is_named && not resolved then some c else none) ≡ some call
          → is_resolved call.id ≡ false
      go false resolved e k = cc
      go true true e k = cc
      go true false e k = cc

  unresolved_item-some :
      (is_resolved : Text → Bool) (o : Option (ToolCallRequest Json)) {call : ToolCallRequest Json}
      → unresolved_item is_resolved o ≡ some call
      → is_resolved call.id ≡ false
  unresolved_item-some is_resolved none h = cc
  unresolved_item-some is_resolved (some c) h = unresolved_call-some is_resolved c h

  unresolved-some :
      (items : List (AssistantResponseItem Json)) (is_resolved : Text → Bool)
      {call : ToolCallRequest Json}
      → unresolved_human_input_call items is_resolved ≡ some call
      → is_resolved call.id ≡ false
  unfolding unresolved_human_input_call
  unresolved-some items is_resolved h =
      let (item, found) = find_map_last-some _ items h in
      unresolved_item-some is_resolved (from_assistant_item item) found

  -- Whether a call that was found to wait has a result.
  abbrev pub has_answer : List (Step Json) → PendingHumanInput Json → Bool
  has_answer steps (main call) = resolved_main steps call.id
  has_answer steps (skill invocation call) = resolved_skill steps invocation.id call.id

  -- What tells two calls apart: the skill's invocation, if it is one's, and the call's id.
  abbrev pub pending_key : PendingHumanInput Json → Option Text × Text
  pending_key (main call) = (none, call.id)
  pending_key (skill invocation call) = (some invocation.id, call.id)

  invocation_in-id :
      (wanted : Text) (payload : StepPayload Json) {i : SkillInvocation}
      → invocation_in wanted payload ≡ some i
      → i.id ≡ wanted
  invocation_in-id wanted (StepPayload.skill_started id call_id skill_name task) {i} h =
      go (text_eq id wanted) refl h
    where
      go :
          (b : Bool)
          → text_eq id wanted ≡ b
          → (if b
              then some
                  (record { id = id; call_id = call_id; skill_name = skill_name; task = task })
              else none)
            ≡ some i
          → i.id ≡ wanted
      go true e k = let same : id ≡ wanted = (text_eq_iff id wanted).0 e in cc
      go false e k = cc
  invocation_in-id wanted (StepPayload.user_message content) h = cc
  invocation_in-id wanted (StepPayload.assistant_response m u items) h = cc
  invocation_in-id wanted (StepPayload.assistant_output_checkpoint content) h = cc
  invocation_in-id wanted (StepPayload.tool_result id call_id content) h = cc
  invocation_in-id wanted (StepPayload.skills_requested names) h = cc
  invocation_in-id wanted (StepPayload.skill_assistant_response id m items) h = cc
  invocation_in-id wanted (StepPayload.skill_tool_result i id c content) h = cc
  invocation_in-id wanted (StepPayload.error message) h = cc

  skill_invocation-id :
      (steps : List (Step Json)) (wanted : Text) {i : SkillInvocation}
      → skill_invocation steps wanted ≡ some i
      → i.id ≡ wanted
  unfolding skill_invocation
  skill_invocation-id steps wanted h =
      let (step, found) = find_map-some _ steps h in invocation_in-id wanted step.payload found

  pending_main-open :
      (steps : List (Step Json)) (o : Option (ToolCallRequest Json)) {p : PendingHumanInput Json}
      → ((call : ToolCallRequest Json) → o ≡ some call → resolved_main steps call.id ≡ false)
      → pending_main o ≡ some p
      → has_answer steps p ≡ false
  pending_main-open steps none h k = cc
  pending_main-open steps (some call) {p} h k =
      subst (λ q. has_answer steps q ≡ false) (some-injective _ _ k) (h call refl)

  pending_skill-open :
      (steps : List (Step Json)) (o : Option (ToolCallRequest Json)) (i : Option SkillInvocation)
      {p : PendingHumanInput Json}
      → ((call : ToolCallRequest Json) (invocation : SkillInvocation)
          → o ≡ some call
          → i ≡ some invocation
          → resolved_skill steps invocation.id call.id ≡ false)
      → pending_skill o i ≡ some p
      → has_answer steps p ≡ false
  pending_skill-open steps none i h k = cc
  pending_skill-open steps (some call) none h k = cc
  pending_skill-open steps (some call) (some invocation) h k =
      subst (λ q. has_answer steps q ≡ false) (some-injective _ _ k) (h call invocation refl refl)

  pending_in-open :
      (steps : List (Step Json)) (payload : StepPayload Json) {p : PendingHumanInput Json}
      → pending_in steps payload ≡ some p
      → has_answer steps p ≡ false
  pending_in-open steps (StepPayload.assistant_response m u items) h =
      pending_main-open steps _ (λ call found. unresolved-some items _ found) h
  pending_in-open steps (StepPayload.skill_assistant_response invocation m items) h =
      pending_skill-open steps _ _
        (λ call i found known.
          rw (skill_invocation-id steps invocation known)
            (unresolved-some items (resolved_skill steps invocation) found))
        h
  pending_in-open steps (StepPayload.user_message content) h = cc
  pending_in-open steps (StepPayload.assistant_output_checkpoint content) h = cc
  pending_in-open steps (StepPayload.tool_result id call_id content) h = cc
  pending_in-open steps (StepPayload.skills_requested names) h = cc
  pending_in-open steps (StepPayload.skill_started id call_id skill_name task) h = cc
  pending_in-open steps (StepPayload.skill_tool_result i id c content) h = cc
  pending_in-open steps (StepPayload.error message) h = cc

  -- A call that is found to wait has no result.
  latest_pending-open :
      (steps : List (Step Json)) {p : PendingHumanInput Json}
      → latest_pending_human_input steps ≡ some p
      → has_answer steps p ≡ false
  unfolding latest_pending_human_input
  latest_pending-open steps h =
      let (step, found) = find_map_last-some _ steps h in pending_in-open steps step.payload found

  answered_main :
      (steps : List (Step Json)) (step : Step Json) (id : Text) (call_id : Option Text)
      (content : Json)
      → step.payload ≡ StepPayload.tool_result id call_id content
      → resolved_main (steps ++ step ∷ []) id ≡ true
  unfolding resolved_main
  answered_main steps step id call_id content h =
      rw (filter_map-append (λ (s : Step Json). resolved_main_id s.payload) steps (step ∷ [])) (
        rw h (
          rw
            (any-append (text_eq id)
              (filter_map (λ (s : Step Json). resolved_main_id s.payload) steps) (id ∷ []))
            (rw (text_eq_refl id) (ground arith))))

  answered_skill :
      (steps : List (Step Json)) (step : Step Json) (invocation id : Text) (call_id : Option Text)
      (content : Json)
      → step.payload ≡ StepPayload.skill_tool_result invocation id call_id content
      → resolved_skill (steps ++ step ∷ []) invocation id ≡ true
  unfolding resolved_skill
  answered_skill steps step invocation id call_id content h =
      rw (filter_map-append (λ (s : Step Json). resolved_skill_id s.payload) steps (step ∷ [])) (
        rw h (
          rw
            (any-append (λ (p : Text × Text). text_eq invocation p.0 && text_eq id p.1)
              (filter_map (λ (s : Step Json). resolved_skill_id s.payload) steps)
              ((invocation, id) ∷ []))
            (rw (text_eq_refl invocation, text_eq_refl id) (ground arith))))

-- Once the input for a pending call stands behind a run's steps, the call that is then found to
-- wait, if there is one, is another: it has another id, or belongs to another invocation of a
-- skill.
pub input_payload-answers :
    (values : Values) (context : RunLoopContext values.Json)
    (pending next : PendingHumanInput values.Json) (input : Text) (steps : List (Step values.Json))
    (step : Step values.Json)
    → step.payload ≡ input_payload values context pending input
    → latest_pending_human_input (steps ++ step ∷ []) ≡ some next
    → pending_key next ≢ pending_key pending
input_payload-answers values context (main call) (main other) input steps step h found same =
    let answered = answered_main steps step call.id call.call_id _ h in
    let open_call = latest_pending-open (steps ++ step ∷ []) found in
    let eq : other.id ≡ call.id = ap (λ k. k.1) same in cc
input_payload-answers values context (main call) (skill i other) input steps step h found same =
    let impossible : some i.id ≡ none = ap (λ k. k.0) same in cc
input_payload-answers values context (skill i call) (main other) input steps step h found same =
    let impossible : none ≡ some i.id = ap (λ k. k.0) same in cc
input_payload-answers values context (skill i call) (skill j other) input steps step h found same =
    let answered = answered_skill steps step i.id call.id call.call_id _ h in
    let open_call = latest_pending-open (steps ++ step ∷ []) found in
    let eq : other.id ≡ call.id = ap (λ k. k.1) same in
    let eq' : j.id ≡ i.id = some-injective _ _ (ap (λ k. k.0) same) in cc
