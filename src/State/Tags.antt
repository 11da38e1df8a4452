-- ===== src/State/Tags.antt =====
-- The texts of tags in crates/jux-core/src/state/store.rs, encoded and decoded.
use jux.Base.{◌≡◌, refl, Text, ok, arith, text_eq_iff, codes}
use jux.State.Model.{
  RunStatus, running, waiting_for_human_input, completed, failed, canceled, encode_run_status,
  decode_run_status, StepKind, encode_step_kind, decode_step_kind, SessionContextKind,
  encode_session_context_kind, decode_session_context_kind,
}

-- The text of a run status decodes to that status.
pub decode-encode_run_status : (s : RunStatus) → decode_run_status (encode_run_status s) ≡ ok s
unfolding decode_run_status encode_run_status
decode-encode_run_status running = refl
decode-encode_run_status waiting_for_human_input = refl
decode-encode_run_status completed = refl
decode-encode_run_status failed = refl
decode-encode_run_status canceled = refl

-- A text that decodes to a run status is the text of that status.
pub encode-decode_run_status :
    (t : Text) {s : RunStatus} → decode_run_status t ≡ ok s → encode_run_status s ≡ t
unfolding decode_run_status encode_run_status
encode-decode_run_status t {s} h = ground (
  arith,
  text_eq_iff t (codes "running"),
  text_eq_iff t (codes "waiting_for_human_input"),
  text_eq_iff t (codes "completed"),
  text_eq_iff t (codes "failed"),
  text_eq_iff t (codes "canceled"),
)

-- The text of a step kind decodes to that kind.
pub decode-encode_step_kind : (k : StepKind) → decode_step_kind (encode_step_kind k) ≡ ok k
unfolding decode_step_kind encode_step_kind
decode-encode_step_kind StepKind.user_message = refl
decode-encode_step_kind _ = refl

pub decode-encode_session_context_kind :
    (k : SessionContextKind) → decode_session_context_kind (encode_session_context_kind k) ≡ ok k
unfolding decode_session_context_kind encode_session_context_kind
decode-encode_session_context_kind SessionContextKind.system_prompt = refl
decode-encode_session_context_kind _ = refl
