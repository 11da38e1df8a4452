-- ===== src/Agent/LogicCalls.antt =====
-- crates/jux-core/src/main_loop/mod.rs: what a call of the model meets.
use jux.Base.{
  ℕ, Bool, true, false, Text, Option, none, some, List, [], ◌∷◌, Result, ok, err, refl,
  if◌then◌else◌,
}
use jux.State.Model.{Run, LlmUsage}
use jux.State.Sessions.{load_workspace, load_session}
use jux.State.Steps.{load_run_steps, load_session_steps}
use jux.State.Items.{load_session_context_items}
use jux.Agent.Values.{Values}
use jux.Agent.Event.{AgentEventData}
use jux.Agent.Messages.{LlmCompletionRequest}
use jux.Agent.Monad.{RunLoopContext, Answer, StreamedContent}
use jux.Agent.Ending.{read_output, wait_for_human_input, complete_run}
use jux.Agent.Llm.{
  build_completion_request, request_or_fail, llm_request_or_fail, answer_or_fail, emit_chunk,
  chunk_event, chunk_usage, no_usage, stream_chunks, stream_completion, plain_completion,
  complete_llm_call,
}
use jux.Agent.Logic.{
  Logic, Follows, ◌>>=◌, ◌>>◌, pure-Follows, of_option-Follows, emit-Follows, ask_model-Follows,
  await-Follows, read-Follows, set_run_status-Follows, fail_runtime-Follows,
  fail_completion_call-Follows,
}

module _ (values : Values) (context : RunLoopContext values.Json) (run : Run)
    {logic : Logic context run} where
  open values use {Json}

  read_output-Follows :
      (ended : Run) (answer : Option Text) → Follows logic (read_output context ended answer)
  unfolding read_output load_workspace load_session load_run_steps
  read_output-Follows ended answer = do
    workspace ← read-Follows _ (λ db. refl)
    session_id ← of_option-Follows _
    session ← read-Follows _ (λ db. refl)
    steps ← read-Follows _ (λ db. refl)
    pure-Follows _

  pub wait_for_human_input-Follows : Follows logic (wait_for_human_input context run)
  unfolding wait_for_human_input
  wait_for_human_input-Follows = do
    waiting ← set_run_status-Follows _
    read_output-Follows waiting none

  pub complete_run-Follows : (answer : Text) → Follows logic (complete_run context run answer)
  unfolding complete_run
  complete_run-Follows answer = do
    completed ← set_run_status-Follows _
    output ← read_output-Follows completed (some answer)
    emit-Follows _ _ _
    pure-Follows output

  request_or_fail-Follows :
      (built : Result Text (LlmCompletionRequest Json))
      → Follows logic (request_or_fail values context run built)
  request_or_fail-Follows (ok request) = pure-Follows request
  request_or_fail-Follows (err message) = fail_runtime-Follows message

  llm_request_or_fail-Follows : Follows logic (llm_request_or_fail values context run)
  unfolding llm_request_or_fail build_completion_request load_session_context_items
      load_session_steps
  llm_request_or_fail-Follows = do
    built ← do
      session ← of_option-Follows _
      items ← read-Follows _ (λ db. refl)
      steps ← read-Follows _ (λ db. refl)
      pure-Follows _
    request_or_fail-Follows built

  answer_or_fail-Follows :
      {A : Type 0} (index : ℕ) (answer : Result Text A)
      → Follows logic (answer_or_fail values context run index answer)
  answer_or_fail-Follows index (ok a) = pure-Follows a
  answer_or_fail-Follows index (err error) = fail_completion_call-Follows error index

  emit_chunk-Follows :
      (index : ℕ) (payload : Option (AgentEventData Json))
      → Follows logic (emit_chunk values context index payload)
  emit_chunk-Follows index none = pure-Follows tt
  emit_chunk-Follows index (some payload) = emit-Follows _ _ payload

  stream_chunks-Follows :
      (index : ℕ) (usage : LlmUsage) (chunks : List (Answer StreamedContent))
      → Follows logic (stream_chunks values context run index usage chunks)
  unfolding stream_chunks
  stream_chunks-Follows index usage [] = pure-Follows usage
  stream_chunks-Follows index usage (chunk ∷ chunks) = do
    received ← await-Follows chunk
    content ← answer_or_fail-Follows index received
    emit_chunk-Follows index (chunk_event content)
    stream_chunks-Follows index (chunk_usage content usage) chunks

  completion-Follows :
      (streamed : Bool) (request : LlmCompletionRequest Json) (index : ℕ)
      → Follows logic (
          if streamed
          then stream_completion values context run request index
          else plain_completion values context run request index)
  unfolding stream_completion plain_completion
  completion-Follows true request index = do
    opened ← ask_model-Follows _
    stream ← answer_or_fail-Follows index opened
    usage ← stream_chunks-Follows index no_usage stream.chunks
    emit-Follows _ _ _
    pure-Follows _
  completion-Follows false request index = do
    received ← ask_model-Follows _
    answer_or_fail-Follows index received

  pub complete_llm_call-Follows :
      (index : ℕ) → Follows logic (complete_llm_call values context run index)
  unfolding complete_llm_call
  complete_llm_call-Follows index = do
    request ← llm_request_or_fail-Follows
    emit-Follows _ _ _
    response ← completion-Follows context.stream_model_output request index
    emit-Follows _ _ _
    pure-Follows response
