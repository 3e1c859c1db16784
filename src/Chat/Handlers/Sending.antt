-- ===== src/Chat/Handlers/Sending.antt =====
-- A message that is sent, sent again, and sent twice at once.
use mathlib.Core.Path.{subst}
use recruitment_platform_be.Prelude.{
  ℕ, ◌≡◌, ◌⊎◌, true, none, some, [], ◌∷◌, ◌++◌, ◌==◌, if◌then◌else◌, arith, sym, ◌∙◌, inl, inr,
  Option-cases,
}
use recruitment_platform_be.Prelude.Action.{ok, Result-cases}
use recruitment_platform_be.Common.Text.{take}
use recruitment_platform_be.Chat.Entity.{
  Message, MessageResponse, Conversation, is_member, ensure_member, other_participant_id, to_dto,
  display_content,
}
use recruitment_platform_be.Chat.Repository.{
  Database, IsDatabase, Created, create_and_touch_conversation,
}
use recruitment_platform_be.Chat.Handlers.{
  Ports, World, CreateMessageInput, MessageSentEvent, check_content, new_message, resolve,
  insert_message, create_message,
}

module _ {S : Type 0} {db : Database S} (laws : IsDatabase db) where
  -- The message is written, or it was there.
  abbrev pub Saved : Message → S → Message → S → Type 0
  Saved m s b s' =
      Created db m s (ok b, s')
      ⊎ ((db.find_by_client_message_id m.conversation_id m.client_message_id s ≡ some b) × (s' ≡ s))

  pub create_cases :
      (m b : Message) (s s' : S)
      → create_and_touch_conversation db m s ≡ (ok b, s')
      → Saved m s b s'
  unfolding create_and_touch_conversation
  create_cases m b s s' h = elim (Result-cases (db.create_and_touch m s).0) [
    | inl (x, e) ↦
        let step : db.create_and_touch m s ≡ (ok b, s') = ground arith in
        inl (subst (Created db m s) step (laws.create_outcome m s))
    | inr (x, e) ↦ inr (ground (arith, laws.create_outcome m s))
  ]

  module _ (ports : Ports) where
    abbrev pub event :
        (now sender_id : ℕ) → CreateMessageInput → Conversation → Message → MessageSentEvent
    event now sender_id input c b = record {
      message = resolve db ports now (to_dto b);
      conversation_id = input.conversation_id;
      sender_id = sender_id;
      recipient_id = if c.candidate_id == sender_id then c.recruiter_id else c.candidate_id;
      job_title = elim (ports.find_job c.job_id) [ some job ↦ job.title | none ↦ "a job" ];
      preview = take 120 (display_content b);
    }

    pub insert_message_saves :
        (u f n : ℕ) (input : CreateMessageInput) (c : Conversation) (w w' : World S)
        (d : MessageResponse)
        → insert_message db ports u f n input c w ≡ (ok d, w')
        → (b : Message) × (check_content input ≡ ok tt)
          × (is_member c u ≡ true)
          × (create_and_touch_conversation db (new_message u f n input) w.store ≡ (ok b, w'.store))
          × (d ≡ resolve db ports n (to_dto b))
          × (w'.events ≡ w.events ++ event n u input c b ∷ [])
    unfolding insert_message other_participant_id ensure_member
    insert_message_saves u f n input c w w' d h =
        elim (Result-cases (create_and_touch_conversation db (new_message u f n input) w.store).0) [
          | inl (b, e) ↦ (b, ground arith, ground arith, ground arith, ground arith, ground arith)
          | inr (x, e) ↦ ground arith
        ]

    -- What CreateMessageHandler has done when it answers: it found the message of that client id, or
    -- it wrote the new one, checked, and announced it; a concurrent write may have come first.
    abbrev pub Sent :
        (u f n : ℕ) → CreateMessageInput → Conversation → Message → World S → World S → Type 0
    Sent u f n input c b w w' =
        ((db.find_by_client_message_id input.conversation_id input.client_message_id w.store
            ≡ some b)
          × (w' ≡ w))
        ⊎ ((db.find_by_client_message_id input.conversation_id input.client_message_id w.store
              ≡ none)
            × (check_content input ≡ ok tt)
            × Saved (new_message u f n input) w.store b w'.store
            × (w'.events ≡ w.events ++ event n u input c b ∷ []))

    create_message_found :
        (u f n : ℕ) (input : CreateMessageInput) (w w' : World S) (d : MessageResponse)
        → create_message db ports u f n input w ≡ (ok d, w')
        → (c : Conversation) × (db.find_conversation input.conversation_id w.store ≡ some c)
          × (is_member c u ≡ true)
    unfolding create_message ensure_member
    create_message_found u f n input w w' d h = ground arith

    pub create_message_known :
        (u f n : ℕ) (input : CreateMessageInput) (c : Conversation) (b : Message) (w : World S)
        → db.find_conversation input.conversation_id w.store ≡ some c
        → is_member c u ≡ true
        → db.find_by_client_message_id input.conversation_id input.client_message_id w.store
          ≡ some b
        → create_message db ports u f n input w ≡ (ok (resolve db ports n (to_dto b)), w)
    unfolding create_message ensure_member
    create_message_known u f n input c b w found joined known = ground arith

    create_message_new :
        (u f n : ℕ) (input : CreateMessageInput) (c : Conversation) (w : World S)
        → db.find_conversation input.conversation_id w.store ≡ some c
        → is_member c u ≡ true
        → db.find_by_client_message_id input.conversation_id input.client_message_id w.store ≡ none
        → create_message db ports u f n input w ≡ insert_message db ports u f n input c w
    unfolding create_message ensure_member
    create_message_new u f n input c w found joined new = ground arith

    -- A send that is accepted came from a member of the conversation. Either a message of the
    -- conversation already had that client id; then it is the answer and nothing changes. Or none
    -- had; then the content was checked, and one event announces the message that is answered: the
    -- new one, written now, or one that a concurrent send wrote meanwhile.
    pub create_message_accepted :
        (u f n : ℕ) (input : CreateMessageInput) (w w' : World S) (d : MessageResponse)
        → create_message db ports u f n input w ≡ (ok d, w')
        → (c : Conversation) × (b : Message) × (db.find_conversation input.conversation_id w.store
            ≡ some c)
          × (is_member c u ≡ true)
          × (d ≡ resolve db ports n (to_dto b))
          × Sent u f n input c b w w'
    unfolding new_message
    create_message_accepted u f n input w w' d h =
        let (c, found, joined) = create_message_found u f n input w w' d h in
        elim (Option-cases
          (db.find_by_client_message_id input.conversation_id input.client_message_id w.store)) [
            | inl new ↦
                let (b, checked, j, put, answer, events) =
                  insert_message_saves u f n input c w w' d
                    (sym (create_message_new u f n input c w found joined new) ∙ h) in
                (
                  c,
                  b,
                  found,
                  joined,
                  answer,
                  inr (new, checked, create_cases _ b w.store w'.store put, events),
                )
            | inr (b, known) ↦
                let again = sym (create_message_known u f n input c b w found joined known) ∙ h in
                (c, b, found, joined, ground arith, inl (known, ground arith))
          ]
