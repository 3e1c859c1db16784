-- ===== src/Chat/Repository/Memory.antt =====
-- A database of messages and conversations in memory that keeps the promises: a log of what was
-- written, read from the latest entry on.
use recruitment_platform_be.Prelude.{
  ℕ, Option, none, some, List, [], ◌∷◌, ◌≡◌, ◌==◌, ◌&&◌, if◌then◌else◌, is_some, arith,
}
use recruitment_platform_be.Prelude.Action.{Result, ok, err}
use recruitment_platform_be.Common.Database.{DatabaseError, unique_violation, other_failure}
use recruitment_platform_be.Chat.Entity.{Message, Conversation, ConversationMember}
use recruitment_platform_be.Chat.Repository.{
  Database, IsDatabase, Created, Updated, Started, MarkedRead, touched?,
}

pub data Entry : Type 0 where
  message_entry : Message → Entry
  conversation_entry : Conversation → Entry
  touch_entry : (conversation_id at : ℕ) → Entry
  read_entry : (conversation_id user_id at : ℕ) → Entry

abbrev pub Memory : Type 0
Memory = List Entry

abbrev find_message : ℕ → Memory → Option Message
find_message k [] = none
find_message k (message_entry m ∷ s) =
    let rest = find_message k s in if k == m.id then some m else rest
find_message k (_ ∷ s) = find_message k s

abbrev find_by_client : (c k : ℕ) → Memory → Option Message
find_by_client c k [] = none
find_by_client c k (message_entry m ∷ s) =
    let rest = find_by_client c k s in
    if c == m.conversation_id && k == m.client_message_id then some m else rest
find_by_client c k (_ ∷ s) = find_by_client c k s

abbrev find_conversation : ℕ → Memory → Option Conversation
find_conversation k [] = none
find_conversation k (conversation_entry c ∷ s) =
    let rest = find_conversation k s in if k == c.id then some c else rest
find_conversation k (touch_entry i t ∷ s) = touched? i t (find_conversation k s)
find_conversation k (_ ∷ s) = find_conversation k s

abbrev find_by_application : ℕ → Memory → Option Conversation
find_by_application a [] = none
find_by_application a (conversation_entry c ∷ s) =
    let rest = find_by_application a s in if a == c.application_id then some c else rest
find_by_application a (touch_entry i t ∷ s) = touched? i t (find_by_application a s)
find_by_application a (_ ∷ s) = find_by_application a s

abbrev find_last_read : (c u : ℕ) → Memory → Option ℕ
find_last_read c u [] = none
find_last_read c u (read_entry d v t ∷ s) =
    let rest = find_last_read c u s in if c == d && u == v then some t else rest
find_last_read c u (_ ∷ s) = find_last_read c u s

abbrev create : Message → Memory → Result DatabaseError Message × Memory
create m s =
    if is_some (find_message m.id s)
    then (err other_failure, s)
    else if is_some (find_by_client m.conversation_id m.client_message_id s)
    then (err unique_violation, s)
    else (ok m, touch_entry m.conversation_id m.created_at ∷ message_entry m ∷ s)

-- The row that an update writes.
abbrev revised : Message → Message → Message
revised old m = record old {
  content = m.content;
  message_type = m.message_type;
  deleted_at = m.deleted_at;
}

abbrev update : Message → Memory → Result DatabaseError Message × Memory
update m s = elim (find_message m.id s) [
  | some old ↦ (ok (revised old m), message_entry (revised old m) ∷ s)
  | none ↦ (err other_failure, s)
]

abbrev start :
    Conversation → List ConversationMember → Memory → Result DatabaseError Conversation × Memory
start c members s =
    if is_some (find_conversation c.id s)
    then (err other_failure, s)
    else if is_some (find_by_application c.application_id s)
    then (err unique_violation, s)
    else (ok c, conversation_entry c ∷ s)

abbrev read : (c u at : ℕ) → Memory → Result DatabaseError (Unit {0}) × Memory
read c u at s = (ok tt, read_entry c u at ∷ s)

abbrev pub memory : Database Memory
memory = record {
  find_message = find_message;
  find_by_client_message_id = find_by_client;
  create_and_touch = create;
  update_message = update;
  find_conversation = find_conversation;
  find_by_application_id = find_by_application;
  create_with_members = start;
  mark_member_read = read;
  find_last_read = find_last_read;
}

create_promise : (m : Message) (s : Memory) → Created memory m s (create m s)
create_promise m s = ground arith

found_promise : (k : ℕ) (m : Message) (s : Memory) → find_message k s ≡ some m → m.id ≡ k
found_promise k m [] h = ground arith
found_promise k m (message_entry x ∷ s) h = ground (arith, found_promise k m s)
found_promise k m (conversation_entry x ∷ s) h = found_promise k m s h
found_promise k m (touch_entry i t ∷ s) h = found_promise k m s h
found_promise k m (read_entry i u t ∷ s) h = found_promise k m s h

update_promise :
    (old m : Message) (s : Memory)
    → find_message m.id s ≡ some old
    → Updated memory old m s (update m s)
update_promise old m s found = ground (arith, found_promise m.id old s found)

start_promise :
    (c : Conversation) (members : List ConversationMember) (s : Memory)
    → Started memory c s (start c members s)
start_promise c members s = ground arith

read_promise : (c u at : ℕ) (s : Memory) → MarkedRead memory c u at s (read c u at s)
read_promise c u at s = ground arith

pub memory-IsDatabase : IsDatabase memory
memory-IsDatabase = record {
  create_outcome = create_promise;
  update_outcome = update_promise;
  start_outcome = start_promise;
  read_outcome = read_promise;
  found_message = found_promise;
}
