-- ===== src/Chat/Handlers/Refusals.antt =====
-- A request about messages that is refused leaves the database and the events as they were.
use recruitment_platform_be.Prelude.{ℕ, ◌≡◌, inl, inr, arith, true, Option-cases, Bool-cases}
use recruitment_platform_be.Prelude.Action.{Result, ok, err, Result-cases}
use recruitment_platform_be.Common.Text.{Text}
use recruitment_platform_be.Common.Database.{DatabaseError}
use recruitment_platform_be.Chat.Exceptions.{ChatException}
use recruitment_platform_be.Chat.Entity.{
  Message, MessageResponse, Conversation, edit, soft_delete, ensure_sender, ensure_member,
  other_participant_id, is_member,
}
use recruitment_platform_be.Chat.Repository.{
  Database, IsDatabase, create_and_touch_conversation, find_or_create_for_application,
}
use recruitment_platform_be.Chat.Handlers.{
  Ports, World, CreateMessageInput, new_message, insert_message, create_message, edit_message,
  delete_message, mark_conversation_read, create_conversation, opened,
}

-- A request to the module.
pub data Command : Type 0 where
  create : (sender_id fresh_id now : ℕ) → CreateMessageInput → Command
  edit_it : (user_id message_id : ℕ) → (content : Text) → Command
  delete_it : (user_id message_id now : ℕ) → Command
  read_it : (user_id conversation_id now : ℕ) → Command
  start_one : (recruiter_id application_id fresh_id now : ℕ) → Command

pub data Answer : Type 0 where
  message : MessageResponse → Answer
  conversation : Conversation → Answer
  done : Answer

abbrev pub answer :
    {A W : Type 0} → (A → Answer) → Result ChatException A × W → Result ChatException Answer × W
answer f (ok a, w) = (ok (f a), w)
answer f (err e, w) = (err e, w)

pub answer_ok :
    {A W : Type 0} (f : A → Answer) (p : Result ChatException A × W) (a : Answer) (w : W)
    → answer f p ≡ (ok a, w)
    → (x : A) × (p ≡ (ok x, w))
answer_ok f (ok x, w') a w h = (x, ground arith)
answer_ok f (err e, w') a w h = ground arith

module _ {S : Type 0} (db : Database S) (ports : Ports) where
  abbrev pub execute : Command → World S → Result ChatException Answer × World S
  execute (create u f n i) w = answer message (create_message db ports u f n i w)
  execute (edit_it u k t) w = answer message (edit_message db ports u k t w)
  execute (delete_it u k n) w = answer message (delete_message db ports u k n w)
  execute (read_it u k n) w = answer (λ _. done) (mark_conversation_read db ports u k n w)
  execute (start_one r a f n) w = answer conversation (create_conversation db ports r a f n w)

module _ {S : Type 0} {db : Database S} (laws : IsDatabase db) (ports : Ports) where
  create_and_touch_refused :
      (m : Message) (s : S) (e : DatabaseError)
      → (create_and_touch_conversation db m s).0 ≡ err e
      → (create_and_touch_conversation db m s).1 ≡ s
  unfolding create_and_touch_conversation
  create_and_touch_refused m s e h = ground (arith, laws.create_outcome m s)

  insert_refused :
      (u f n : ℕ) (i : CreateMessageInput) (c : Conversation) (w : World S) (e : ChatException)
      → is_member c u ≡ true
      → (insert_message db ports u f n i c w).0 ≡ err e
      → (insert_message db ports u f n i c w).1 ≡ w
  unfolding insert_message other_participant_id ensure_member
  insert_refused u f n i c w e joined h =
      elim (Result-cases (create_and_touch_conversation db (new_message u f n i) w.store).0) [
        | inl (b, saved) ↦ ground arith
        | inr (x, failed) ↦
            ground (arith, create_and_touch_refused (new_message u f n i) w.store x failed)
      ]

  message_refused :
      (u f n : ℕ) (i : CreateMessageInput) (w : World S) (e : ChatException)
      → (create_message db ports u f n i w).0 ≡ err e
      → (create_message db ports u f n i w).1 ≡ w
  unfolding create_message ensure_member
  message_refused u f n i w e h =
      elim (Option-cases (db.find_conversation i.conversation_id w.store)) [
        | inl missing ↦ ground arith
        | inr (c, found) ↦
            elim (Option-cases
              (db.find_by_client_message_id i.conversation_id i.client_message_id w.store)) [
                | inl new ↦ elim (Bool-cases (is_member c u)) [
                  | inl joined ↦ ground (arith, insert_refused u f n i c w e joined)
                  | inr other ↦ ground arith
                ]
                | inr (b, known) ↦ ground arith
              ]
      ]

  edit_refused :
      (u k : ℕ) (t : Text) (w : World S) (e : ChatException)
      → (edit_message db ports u k t w).0 ≡ err e
      → (edit_message db ports u k t w).1 ≡ w
  unfolding edit_message ensure_sender edit
  edit_refused u k t w e h = elim (Option-cases (db.find_message k w.store)) [
    | inl missing ↦ ground arith
    | inr (m, found) ↦ elim (Result-cases (edit m t)) [
      | inl (m', edited) ↦
          ground (arith, laws.update_outcome m m' w.store, laws.found_message k m w.store)
      | inr (x, failed) ↦ ground arith
    ]
  ]

  delete_refused :
      (u k n : ℕ) (w : World S) (e : ChatException)
      → (delete_message db ports u k n w).0 ≡ err e
      → (delete_message db ports u k n w).1 ≡ w
  unfolding delete_message ensure_sender soft_delete
  delete_refused u k n w e h = elim (Option-cases (db.find_message k w.store)) [
    | inl missing ↦ ground arith
    | inr (m, found) ↦ elim (Result-cases (soft_delete n m)) [
      | inl (m', deleted) ↦
          ground (arith, laws.update_outcome m m' w.store, laws.found_message k m w.store)
      | inr (x, failed) ↦ ground arith
    ]
  ]

  read_refused :
      (u k n : ℕ) (w : World S) (e : ChatException)
      → (mark_conversation_read db ports u k n w).0 ≡ err e
      → (mark_conversation_read db ports u k n w).1 ≡ w
  unfolding mark_conversation_read ensure_member
  read_refused u k n w e h = ground (arith, laws.read_outcome k u n w.store)

  start_refused :
      (r a f n : ℕ) (w : World S) (e : ChatException)
      → (create_conversation db ports r a f n w).0 ≡ err e
      → (create_conversation db ports r a f n w).1 ≡ w
  unfolding create_conversation find_or_create_for_application
  start_refused r a f n w e h = elim (Option-cases (ports.find_application a)) [
    | inl missing ↦ ground arith
    | inr (application, found) ↦ elim (Option-cases (ports.find_job application.job_id)) [
      | inl missing ↦ ground arith
      | inr (job, found') ↦
          let (c, members) = opened r f n application job in
          elim (Option-cases (db.find_by_application_id application.id w.store)) [
            | inl none' ↦ ground (arith, laws.start_outcome c members w.store)
            | inr (c', known) ↦ ground arith
          ]
    ]
  ]

  -- A request about messages or conversations that is refused, for whatever reason, leaves the
  -- database and the events as they were.
  pub execute_unchanged :
      (c : Command) (w : World S) (e : ChatException)
      → (execute db ports c w).0 ≡ err e
      → (execute db ports c w).1 ≡ w
  execute_unchanged (create u f n i) w e h = ground (arith, message_refused u f n i w e)
  execute_unchanged (edit_it u k t) w e h = ground (arith, edit_refused u k t w e)
  execute_unchanged (delete_it u k n) w e h = ground (arith, delete_refused u k n w e)
  execute_unchanged (read_it u k n) w e h = ground (arith, read_refused u k n w e)
  execute_unchanged (start_one r a f n) w e h = ground (arith, start_refused r a f n w e)
