-- ===== src/Tests/Agent.antt =====
-- Runs of the live conversation.
use reframe_web.Prelude.{ℕ, ◌≡◌, refl, some, [], ◌∷◌}
use reframe_web.Tasks.Payloads.{Text, literal, is_space}
use reframe_web.Agent.LiveConversation.{
  text_eq, squeeze, clean, Live, create, next_captured_at, append_message, add_clean, add_message,
  resolve_human_reply, mem, filter, messages_for, active_for, active_human_reply_created_at,
  captured, other_stamp, HistoryMessage, History, replace_here, replace_search,
  replace_persisted_active_reply, replace_all, count, append_missing, merge_messages, merge_live,
  merge,
}
use reframe_web.Agent.LiveConversation.Stamps.{IsTimed, add_message-IsTimed, resolve-add_message}
use reframe_web.Agent.LiveConversation.Counts.{IsMerged, merge-IsMerged}

create-IsTimed : IsTimed create
create-IsTimed = record { increasing = tt; messages_before = tt; active_before = tt }

-- The runs of spaces are one each.
clean_lem : clean (literal " a  b ") ≡ literal "a b"
unfolding clean squeeze is_space literal
clean_lem = refl

abbrev human : Text
human = literal "human"

-- One reply, which is active
abbrev live : Live
live = (add_message create 10 (some 1) human (literal "hi")).0

active_lem : active_human_reply_created_at live (some 1) ≡ 10 ∷ []
unfolding active_human_reply_created_at add_message add_clean append_message next_captured_at filter
    mem clean squeeze is_space literal text_eq
active_lem = refl

add_message-IsTimed_example : IsTimed live
add_message-IsTimed_example =
    add_message-IsTimed create 10 (some 1) human (literal "hi") create-IsTimed

resolve-add_message_example :
    (resolve_human_reply
      (add_message live 9 (some 1) human (literal "yes")).0
      (add_message live 9 (some 1) human (literal "yes")).1).active_human_replies
    ≡ live.active_human_replies
resolve-add_message_example =
    resolve-add_message live 9 (some 1) human (literal "yes")
      (add_message-IsTimed create 10 (some 1) human (literal "hi") create-IsTimed)

abbrev said : ℕ → HistoryMessage
said t = record {
  created_at = other_stamp (some t);
  updated_at = other_stamp (some t);
  role = human;
  content = literal "hi";
}

-- The same words from an earlier run of the program, and the copy of the reply
abbrev conversation : History
conversation = record {
  id = 1;
  name = literal "talk";
  created_at = captured 0;
  updated_at = captured 12;
  read_at = literal "NONE";
  messages = said 3 ∷ said 12 ∷ [];
}

-- The copy goes, and the older words stand for the active reply.
lost_lem :
    merge live 20 (some conversation) (some 1)
    ≡ some (record conversation { messages = said 3 ∷ [] })
unfolding merge merge_live merge_messages append_missing count replace_all
    replace_persisted_active_reply replace_search replace_here add_message add_clean append_message
    next_captured_at filter mem clean squeeze is_space literal text_eq
lost_lem = refl

merge-IsMerged_example :
    (h' : History) × (merge live 20 (some conversation) (some 1) ≡ some h')
    × IsMerged
        (messages_for live 1)
        (active_for live 1)
        conversation.messages
        h'.messages
        (human, literal "hi")
merge-IsMerged_example = merge-IsMerged live 20 1 conversation (human, literal "hi")
