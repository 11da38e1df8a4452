-- ===== src/Agent/Llm.antt =====
-- crates/jux-core/src/main_loop/mod.rs: one call of the model.
use jux.Base.{
  ℕ, Text, codes, Option, none, some, List, [], ◌∷◌, ◌++◌, Result, ok, err, if◌then◌else◌,
}
use jux.State.Ids.{parent}
use jux.State.Model.{Run, LlmUsage, SessionContextItem, Step}
use jux.State.Steps.{load_session_steps}
use jux.State.Items.{load_session_context_items}
use jux.Agent.Values.{Values}
use jux.Agent.Event.{
  AgentEventKind, AgentEventData, llm_event, llm_started, llm_completed, output_completed,
  assistant_text_delta, assistant_reasoning_delta, tool_call_delta, usage_delta,
}
use jux.Agent.Messages.{
  Message, LlmCompletionRequest, ToolDefinition, filter_map, split_last, item_to_chat_message,
  item_to_tool_definition, visible_messages,
}
use jux.Agent.Monad.{
  RunLoopContext, Answer, StreamedContent, streamed_text, streamed_reasoning, reasoning_delta,
  call_delta, final, streamed_tool_call, LlmResponse, Running, ◌>>=◌, ◌>>◌, pure, of_option,
  of_store, ask_model, await, emit,
}
use jux.Agent.Ending.{fail_completion_call, fail_runtime}

-- The event of a chunk.
abbrev pub chunk_event : {Json : Type 0} → StreamedContent → Option (AgentEventData Json)
chunk_event (streamed_text content) = some (assistant_text_delta content)
chunk_event (streamed_reasoning content) = some (assistant_reasoning_delta content)
chunk_event (reasoning_delta content) = some (assistant_reasoning_delta content)
chunk_event (call_delta call_id content) = some (tool_call_delta call_id content)
chunk_event (final (some usage)) = some (usage_delta usage)
chunk_event (final none) = none
chunk_event streamed_tool_call = none

abbrev pub chunk_usage : StreamedContent → LlmUsage → LlmUsage
chunk_usage (final (some usage)) before = usage
chunk_usage _ before = before

-- `Usage::new`, and `Default` of `LlmUsage`
abbrev pub no_usage : LlmUsage
no_usage = record {
  input_tokens = 0;
  output_tokens = 0;
  total_tokens = 0;
  cached_input_tokens = 0;
  cache_creation_input_tokens = 0;
}

module _ (values : Values) where
  open values use {Json}

  abbrev request_of :
      Option (Message Json × List (Message Json))
      → List (ToolDefinition Json)
      → Result Text (LlmCompletionRequest Json)
  request_of none tools = err (codes "run has no visible message for the LLM")
  request_of (some (prompt, history)) tools =
      ok (record { prompt = prompt; history = history; tools = tools })

  -- The request that session context and steps project to.
  unfoldable pub project_request :
      List (SessionContextItem Json) → List (Step Json) → Result Text (LlmCompletionRequest Json)
  project_request items steps =
      request_of
        (split_last
          (filter_map (item_to_chat_message values) items ++ visible_messages values steps))
        (filter_map (item_to_tool_definition values) items)

  module _ (context : RunLoopContext Json) where
    unfoldable pub build_completion_request :
        Run → Running Json (Result Text (LlmCompletionRequest Json))
    build_completion_request run = do
      session ← of_option (parent run.id)
      items ← of_store (load_session_context_items context.context_codec session)
      steps ← of_store (load_session_steps context.step_codec session)
      pure (project_request items steps)

    abbrev pub request_or_fail :
        Run → Result Text (LlmCompletionRequest Json) → Running Json (LlmCompletionRequest Json)
    request_or_fail run (ok request) = pure request
    request_or_fail run (err message) = fail_runtime context run message

    unfoldable pub llm_request_or_fail : Run → Running Json (LlmCompletionRequest Json)
    llm_request_or_fail run = do built ← build_completion_request run; request_or_fail run built

    abbrev pub answer_or_fail : {A : Type 0} → Run → ℕ → Result Text A → Running Json A
    answer_or_fail run index (ok a) = pure a
    answer_or_fail run index (err error) = fail_completion_call context run error index

    abbrev pub emit_chunk : ℕ → Option (AgentEventData Json) → Running Json Unit
    emit_chunk index none = pure tt
    emit_chunk index (some payload) = emit context (llm_event index 1) AgentEventKind.output payload

    -- The loop over the chunks of a stream: the usage at its end.
    unfoldable pub stream_chunks :
        Run → ℕ → LlmUsage → List (Answer StreamedContent) → Running Json LlmUsage
    stream_chunks run index usage [] = pure usage
    stream_chunks run index usage (chunk ∷ chunks) = do
      received ← await chunk
      content ← answer_or_fail run index received
      emit_chunk index (chunk_event content)
      stream_chunks run index (chunk_usage content usage) chunks

    unfoldable pub stream_completion :
        Run → LlmCompletionRequest Json → ℕ → Running Json (LlmResponse Json)
    stream_completion run request index = do
      opened ← ask_model (λ n. context.stream n request)
      stream ← answer_or_fail run index opened
      usage ← stream_chunks run index no_usage stream.chunks
      emit context (llm_event index 1) AgentEventKind.completed output_completed
      pure (record { choice = stream.choice; usage = usage; message_id = stream.message_id })

    unfoldable pub plain_completion :
        Run → LlmCompletionRequest Json → ℕ → Running Json (LlmResponse Json)
    plain_completion run request index = do
      received ← ask_model (λ n. context.completion n request)
      answer_or_fail run index received

    unfoldable pub complete_llm_call : Run → ℕ → Running Json (LlmResponse Json)
    complete_llm_call run index = do
      request ← llm_request_or_fail run
      emit context (llm_event index 1) AgentEventKind.started llm_started
      response ←
          if context.stream_model_output
          then stream_completion run request index
          else plain_completion run request index
      emit context (llm_event index 1) AgentEventKind.completed llm_completed
      pure response
