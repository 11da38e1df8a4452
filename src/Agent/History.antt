-- ===== src/Agent/History.antt =====
-- crates/jux-core/src/main_loop: what a request, ended in any way, leaves behind in the store and
-- among the events.
use jux.Base.{
  ℕ, zero, suc, ◌+◌, ◌%◌, ◌^◌, Bool, Text, List, [], ◌∷◌, ◌++◌, map, length, append-nil,
  append_assoc, ◌≡◌, refl, sym, ap, ◌∙◌,
}
use mathlib.Core.Path.{subst}
use jux.Agent.Values.{Values}
use jux.Agent.Event.{AgentEvent}
use jux.Agent.Monad.{State, RunLoopContext, with_delta, send}
use jux.Agent.Requests.{run_with_events_cancellable, with_new_sinks}
use jux.Agent.Transitions.{
  Transition, read_clock, ask_a_model, ask_a_tool, send_event, append_a_step, set_a_status,
  replace_context, create_a_run, apply, replay, Leads,
}
use jux.Agent.TracedRequests.{run_with_events_cancellable-Leads}
use jux.Agent.Growing.{
  Grows, Grows-refl, Grows-trans, append_step-IsGrowing, update_run_status-IsGrowing,
  create_run-IsGrowing, replace_session_context_items-IsGrowing,
}

-- So many numbers of a `u64` counter, from one on.
abbrev pub count_from : ℕ → ℕ → List ℕ
count_from n zero = []
count_from n (suc k) = n ∷ count_from ((n + 1) % 2 ^ 64) k

module _ {Json : Type 0} (context : RunLoopContext Json) where
  -- The text deltas of events, behind a text.
  abbrev pub with_deltas : List (AgentEvent Json) → Text → Text
  with_deltas [] text = text
  with_deltas (event ∷ events) text = with_deltas events (with_delta context event.payload text)

  -- The events that a state has more than an earlier one are numbered on from that one's next
  -- number, and their text deltas are what its partial output has more.
  abbrev pub Continues : State Json → State Json → Type 0
  Continues s s' =
      (sent : List (AgentEvent Json)) × (s'.events ≡ s.events ++ sent)
      × (map (λ e. e.sequence) sent ≡ count_from s.next_sequence (length sent))
      × (s'.partial_output ≡ with_deltas sent s.partial_output)

  Continues-send :
      (event : AgentEvent Json) (s s' : State Json)
      → Continues (send context event s).1 s'
      → Continues s s'
  unfolding send
  Continues-send event s s' (sent, events, numbers, deltas) =
      let numbered = record event { sequence = s.next_sequence } in
      (
        numbered ∷ sent,
        events ∙ append_assoc s.events (numbered ∷ []) sent,
        ap (λ ns. s.next_sequence ∷ ns) numbers,
        deltas,
      )

  replay-Continues :
      (ts : List (Transition Json)) (s : State Json) → Continues s (replay context ts s)
  replay-Continues [] s = ([], sym (append-nil s.events), refl, refl)
  replay-Continues (read_clock ∷ ts) s = replay-Continues ts (apply context read_clock s)
  replay-Continues (ask_a_model ∷ ts) s = replay-Continues ts (apply context ask_a_model s)
  replay-Continues (ask_a_tool ∷ ts) s = replay-Continues ts (apply context ask_a_tool s)
  replay-Continues (send_event event ∷ ts) s =
      Continues-send event s (replay context ts (send context event s).1)
        (replay-Continues ts (send context event s).1)
  replay-Continues (append_a_step run kind payload now ∷ ts) s =
      replay-Continues ts (apply context (append_a_step run kind payload now) s)
  replay-Continues (set_a_status run status now ∷ ts) s =
      replay-Continues ts (apply context (set_a_status run status now) s)
  replay-Continues (replace_context session items now ∷ ts) s =
      replay-Continues ts (apply context (replace_context session items now) s)
  replay-Continues (create_a_run now request ∷ ts) s =
      replay-Continues ts (apply context (create_a_run now request) s)

  apply-Grows : (t : Transition Json) (s : State Json) → Grows s.db (apply context t s).db
  unfolding send
  apply-Grows read_clock s = Grows-refl s.db
  apply-Grows ask_a_model s = Grows-refl s.db
  apply-Grows ask_a_tool s = Grows-refl s.db
  apply-Grows (send_event event) s = Grows-refl s.db
  apply-Grows (append_a_step run kind payload now) s =
      (append_step-IsGrowing context.step_codec run kind payload now).grows s.db
  apply-Grows (set_a_status run status now) s =
      (update_run_status-IsGrowing run status now).grows s.db
  apply-Grows (replace_context session items now) s =
      (replace_session_context_items-IsGrowing context.context_codec session items now).grows s.db
  apply-Grows (create_a_run now request) s =
      (create_run-IsGrowing context.workspace_raw context.root now request).grows s.db

  replay-Grows :
      (ts : List (Transition Json)) (s : State Json) → Grows s.db (replay context ts s).db
  replay-Grows [] s = Grows-refl s.db
  replay-Grows (t ∷ ts) s =
      Grows-trans s.db (apply context t s).db (replay context ts (apply context t s)).db
        (apply-Grows t s) (replay-Grows ts (apply context t s))

  Leads-Continues : {s s' : State Json} → Leads context s s' → Continues s s'
  Leads-Continues {s} (ts, reached) = subst (Continues s) reached (replay-Continues ts s)

  Leads-Grows : {s s' : State Json} → Leads context s s' → Grows s.db s'.db
  Leads-Grows {s} (ts, reached) = subst (λ s'. Grows s.db s'.db) reached (replay-Grows ts s)

module _ (values : Values) (context : RunLoopContext values.Json) where
  open values use {Json}

  -- However a request ends, the events that it sends are added behind those before and are
  -- numbered 1, 2, 3 and on as a `u64`, and the partial output kept for a checkpoint is the text
  -- of their text deltas, in order.
  pub run_with_events_cancellable-Continues :
      (canceled_before : Bool) (request : Text) (s : State Json)
      → Continues context
          (with_new_sinks values context s)
          (run_with_events_cancellable values context canceled_before request s).1
  run_with_events_cancellable-Continues canceled_before request s =
      Leads-Continues context
        (run_with_events_cancellable-Leads values context canceled_before request s)

  -- However a request ends, also by its cancellation, every step that was stored before is still
  -- there, unchanged and in its place, and every run keeps its id, its request and its time of
  -- creation; new ones are added behind.
  pub run_with_events_cancellable-Grows :
      (canceled_before : Bool) (request : Text) (s : State Json)
      → Grows s.db (run_with_events_cancellable values context canceled_before request s).1.db
  run_with_events_cancellable-Grows canceled_before request s =
      Leads-Grows context
        (run_with_events_cancellable-Leads values context canceled_before request s)
