-- ===== src/Chat/Tests/Messages.antt =====
-- Messages and conversations on concrete requests, and the theorems at them.
use recruitment_platform_be.Prelude.{◌≡◌, ◌⊎◌, refl, false, none, some, [], ◌∷◌, ◌++◌}
use recruitment_platform_be.Prelude.Action.{ok, err}
use recruitment_platform_be.Common.Text.{units, trim}
use recruitment_platform_be.Chat.Exceptions.{empty_message}
use recruitment_platform_be.Chat.Entity.{
  Message, Conversation, text_message, is_member, ensure_member, other_participant_id,
  ensure_sender, edit, soft_delete, display_content, is_deleted, to_dto,
}
use recruitment_platform_be.Chat.Repository.{
  create_and_touch_conversation, find_or_create_for_application,
}
use recruitment_platform_be.Chat.Repository.Memory.{Memory, memory, memory-IsDatabase}
use recruitment_platform_be.Chat.Handlers.{
  Ports, World, ApplicationLookupResult, JobLookupResult, CreateMessageInput, check_content,
  new_message, resolve, insert_message, create_message, edit_message, delete_message,
  mark_conversation_read, create_conversation,
}
use recruitment_platform_be.Chat.Handlers.Sending.{event}
use recruitment_platform_be.Chat.Handlers.Retrying.{create_message_again, create_message_race}
use recruitment_platform_be.Chat.Handlers.Refusals.{
  create, edit_it, delete_it, read_it, start_one, execute,
}
use recruitment_platform_be.Chat.Handlers.History.{editor, edited, Revises, execute_follows}
use recruitment_platform_be.Chat.Handlers.Soundness.{IsChatSound}
use recruitment_platform_be.Chat.Handlers.Runs.{run, run-IsChatSound}

handlers : Unit {0}
unfolding create_message insert_message edit_message delete_message mark_conversation_read
    create_conversation check_content new_message resolve trim is_member ensure_member
    other_participant_id ensure_sender edit soft_delete display_content to_dto
    create_and_touch_conversation find_or_create_for_application run
handlers = tt

abbrev application : ApplicationLookupResult
application = record { id = 4; status = "HIRED"; user_id = 7; job_id = 3 }

abbrev job : JobLookupResult
job = record { id = 3; title = "Backend Engineer"; posted_by_id = 9; company_id = 2 }

abbrev ports : Ports
ports = record {
  find_application = λ k. some application;
  find_job = λ k. some job;
  sign = λ key file_name now seconds. key;
}

abbrev start : World Memory
start = record { store = []; events = [] }

abbrev talk : Conversation
talk = record {
  id = 11;
  job_id = 3;
  application_id = 4;
  candidate_id = 7;
  recruiter_id = 9;
  last_message_at = none;
}

abbrev open_world : World Memory
open_world = (create_conversation memory ports 9 4 11 100 start).1

abbrev input : CreateMessageInput
input = record {
  conversation_id = 11;
  client_message_id = 1;
  content = units " hi ";
  message_type = text_message;
  attachments = [];
}

abbrev blank : CreateMessageInput
blank = record input { client_message_id = 2; content = units "  " }

abbrev sent_world : World Memory
sent_world = (create_message memory ports 7 21 200 input open_world).1

abbrev hi : Message
hi = record {
  id = 21;
  conversation_id = 11;
  sender_id = 7;
  content = units "hi";
  message_type = text_message;
  client_message_id = 1;
  created_at = 200;
  deleted_at = none;
  attachments = [];
}

sent : create_message memory ports 7 21 200 input open_world ≡ (ok (to_dto hi), sent_world)
unfolding handlers
sent = refl

blank_refused : (execute memory ports (create 7 22 300 blank) sent_world).0 ≡ err empty_message
unfolding handlers
blank_refused = refl

create_message_again_example :
    (b : Message) × (memory.find_by_client_message_id 11 1 sent_world.store ≡ some b)
    × (to_dto hi ≡ resolve memory ports 200 (to_dto b))
    × (create_message memory ports 7 23 300 (record blank { client_message_id = 1 }) sent_world
        ≡ (ok (resolve memory ports 300 (to_dto b)), sent_world))
create_message_again_example =
    create_message_again memory-IsDatabase ports 7 21 200 23 300 input
      (record blank { client_message_id = 1 }) open_world sent_world (to_dto hi) sent refl refl

abbrev raced_world : World Memory
raced_world = (insert_message memory ports 9 24 210 input talk sent_world).1

create_message_race_example :
    (raced_world.store ≡ sent_world.store)
    × (b : Message) × (to_dto hi ≡ resolve memory ports 200 (to_dto b))
    × (to_dto hi ≡ resolve memory ports 210 (to_dto b))
    × (sent_world.events
        ≡ open_world.events ++ event memory-IsDatabase ports 200 7 input talk b ∷ [])
    × (raced_world.events
        ≡ sent_world.events ++ event memory-IsDatabase ports 210 9 input talk b ∷ [])
unfolding handlers
create_message_race_example =
    create_message_race memory-IsDatabase ports 7 21 200 9 24 210 input input talk talk open_world
      sent_world raced_world (to_dto hi) (to_dto hi) refl refl refl refl

execute_follows_example :
    (memory.find_message 21 (execute memory ports (delete_it 7 21 400) sent_world).1.store
      ≡ some hi)
    ⊎ ((editor (delete_it 7 21 400) ≡ some hi.sender_id)
        × (edited (delete_it 7 21 400) ≡ some 21)
        × (is_deleted hi ≡ false)
        × (m : Message) × (memory.find_message 21
              (execute memory ports (delete_it 7 21 400) sent_world).1.store
            ≡ some m)
        × Revises hi m)
unfolding handlers
execute_follows_example =
    execute_follows memory-IsDatabase ports (delete_it 7 21 400) sent_world 21 hi refl

run-IsChatSound_example :
    IsChatSound memory
      (run memory ports
        (start_one 9 4 11 100
          ∷ create 7 21 200 input
          ∷ edit_it 7 21 (units "hello")
          ∷ read_it 9 11 300
          ∷ delete_it 7 21 400
          ∷ [])
        start).store
run-IsChatSound_example =
    run-IsChatSound memory-IsDatabase ports
      (start_one 9 4 11 100
        ∷ create 7 21 200 input
        ∷ edit_it 7 21 (units "hello")
        ∷ read_it 9 11 300
        ∷ delete_it 7 21 400
        ∷ [])
      start (record { fine = λ k m found. cc; joined = λ k m found. cc })

abbrev deleted_world : World Memory
deleted_world = (delete_message memory ports 7 21 400 sent_world).1

abbrev gone : Message
gone = record hi { deleted_at = some 400 }
