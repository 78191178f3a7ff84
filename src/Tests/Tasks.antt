-- ===== src/Tests/Tasks.antt =====
-- Runs of the primitives.
use reframe_web.Prelude.{
  ℕ, false, ◌≡◌, ◌≢◌, refl, true, none, some, is_some, List, [], ◌∷◌, length, ◌≤◌,
}
use reframe_web.Tasks.Payloads.{
  Text, literal, absent, string, rstrip, lstrip, is_space, payload_text, memory_of_text,
  memory_payload, payload_preview, max_action_detail_chars, malformed_detail,
}
use reframe_web.Tasks.Payloads.Nonempty.{IsNamed, memory_payload-IsNamed, payload_preview-bounded}
use reframe_web.Tasks.Dispatch.{
  agent_reply, conversation_mode_off, Call, ok, malformed, problem_output, mode_output, Setting,
  Dispatcher, DispatchResult, add_reply, agent_replies, problem, tell, turn_off, dispatch_call,
  record_action, dispatch_all, create_task_history, ensure_task_history, append_node, dispatch,
}
use reframe_web.Tasks.Dispatch.History.{IsLogged, dispatch-IsLogged}

abbrev default_title : Text
default_title = literal "User preference"

default_title_lem : default_title ≢ []
unfolding literal
default_title_lem e = cc e

-- A text is trimmed; it is both the title and the description.
tea_lem : memory_payload (string (literal " tea ")) default_title ≡ (literal "tea", literal "tea")
unfolding memory_payload memory_of_text rstrip lstrip is_space literal
tea_lem = refl

memory_payload-IsNamed_example : IsNamed (memory_payload (string (literal " tea ")) default_title)
memory_payload-IsNamed_example =
    memory_payload-IsNamed (string (literal " tea ")) default_title default_title_lem

payload_preview-bounded_example : length (payload_preview (literal "{}")) ≤ max_action_detail_chars
payload_preview-bounded_example = payload_preview-bounded (literal "{}")

-- A database that numbers its records
abbrev setting : Setting ℕ
setting = record {
  session_id = some 20;
  conversation_id = some 30;
  mode_callback = some (λ n. false);
  id_of_write = λ n. some n;
  dumps = λ payload. literal "{}";
}

abbrev dispatcher : Dispatcher ℕ
dispatcher = record { task_history_id = none; writes = 0; journal = [] }

-- A reply without a text, and the end of the conversation
abbrev calls : List Call
calls =
    record { name = agent_reply; payload = absent }
    ∷ record { name = conversation_mode_off; payload = absent }
    ∷ []

abbrev detail : Text
detail = malformed_detail (literal "agent_reply") (literal "{}")

abbrev result : DispatchResult ℕ
result = record {
  records =
      record {
        name = literal "agent_reply";
        status = malformed;
        detail = detail;
        output = problem_output malformed detail (some 1);
      }
      ∷ record {
        name = literal "conversation_mode_off";
        status = ok;
        detail = literal "continuous conversation off";
        output = mode_output;
      }
      ∷ [];
  task_history_id = some 0;
  task_history_node_id = some 4;
}

result_lem : (dispatch setting (some calls) dispatcher).1 ≡ some result
unfolding dispatch ensure_task_history create_task_history dispatch_all dispatch_call tell problem
    agent_replies add_reply turn_off record_action append_node payload_text
result_lem = refl

dispatch-IsLogged_example :
    IsLogged
      (some 20)
      (some 30)
      calls
      dispatcher
      (dispatch setting (some calls) dispatcher).0
      result
dispatch-IsLogged_example = dispatch-IsLogged setting calls dispatcher result result_lem

-- A callback that raises ends the dispatch.
raising_lem :
    is_some
      (dispatch (record setting { mode_callback = some (λ n. true) }) (some calls) dispatcher).1
    ≡ false
unfolding dispatch ensure_task_history create_task_history dispatch_all dispatch_call tell problem
    agent_replies add_reply turn_off record_action append_node payload_text
raising_lem = refl
