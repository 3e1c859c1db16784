-- ===== src/Chat/Handlers/Retrying.antt =====
-- A message that is sent again, one send after the other or two at once.
use recruitment_platform_be.Prelude.{
  ℕ, ◌≡◌, true, some, [], ◌∷◌, ◌++◌, arith, inl, inr, sym, Option-cases, ==_iff,
}
use recruitment_platform_be.Prelude.Action.{ok}
use recruitment_platform_be.Chat.Entity.{Message, MessageResponse, Conversation, is_member, to_dto}
use recruitment_platform_be.Chat.Repository.{Database, IsDatabase}
use recruitment_platform_be.Chat.Handlers.{
  Ports, World, CreateMessageInput, new_message, resolve, insert_message, create_message,
}
use recruitment_platform_be.Chat.Handlers.Sending.{
  Saved, event, create_cases, insert_message_saves, create_message_known, create_message_accepted,
}

module _ {S : Type 0} {db : Database S} (laws : IsDatabase db) where
  -- A message that was saved is known by its client id afterwards.
  Saved-known :
      (m b : Message) (s s' : S)
      → Saved laws m s b s'
      → db.find_by_client_message_id m.conversation_id m.client_message_id s' ≡ some b
  Saved-known m b s s' (inl created) = ground (
    arith,
    created.4 m.conversation_id m.client_message_id,
    ==_iff m.conversation_id m.conversation_id,
    ==_iff m.client_message_id m.client_message_id,
  )
  Saved-known m b s s' (inr (known, same)) = rw same known

  -- The members of a conversation are the same after a message was saved.
  Saved-member :
      (m b : Message) (s s' : S) (k u : ℕ) (c : Conversation)
      → Saved laws m s b s'
      → db.find_conversation k s ≡ some c
      → is_member c u ≡ true
      → (c' : Conversation) × (db.find_conversation k s' ≡ some c') × (is_member c' u ≡ true)
  unfolding is_member
  Saved-member m b s s' k u c (inl created) found joined =
      elim (Option-cases (db.find_conversation k s')) [
        | inl missing ↦ ground (arith, created.5 k)
        | inr (c', found') ↦ (c', found', ground (arith, created.5 k))
      ]
  Saved-member m b s s' k u c (inr (known, same)) found joined = (c, rw same found, joined)

  module _ (ports : Ports) where
    -- A send that was accepted is answered with the message that is then stored under its client id,
    -- whose private attachments are signed at the time of the answer. When it is repeated, by the same sender to the same conversation under
    -- the same client id and with whatever content, it is answered with the same message, signed at
    -- the time of the second answer, and changes neither the database nor the events.
    pub create_message_again :
        (u f n f' n' : ℕ) (input again : CreateMessageInput) (w w' : World S) (d : MessageResponse)
        → create_message db ports u f n input w ≡ (ok d, w')
        → again.conversation_id ≡ input.conversation_id
        → again.client_message_id ≡ input.client_message_id
        → (b : Message) × (db.find_by_client_message_id input.conversation_id
              input.client_message_id w'.store
            ≡ some b)
          × (d ≡ resolve db ports n (to_dto b))
          × (create_message db ports u f' n' again w' ≡ (ok (resolve db ports n' (to_dto b)), w'))
    unfolding new_message
    create_message_again u f n f' n' input again w w' d h same_conversation same_client =
        let (c, b, found, joined, answer, sent) =
          create_message_accepted laws ports u f n input w w' d h in
        elim sent [
          | inl (known, same) ↦
              let repeated =
                create_message_known laws ports u f' n' again c b w (rw same_conversation found)
                  joined (rw (same_conversation, same_client) known) in
              (b, rw same known, answer, rw same repeated)
          | inr (new, checked, saved, events) ↦
              let (c', found', joined') =
                Saved-member (new_message u f n input) b w.store w'.store input.conversation_id u c
                  saved found joined in
              let stored = Saved-known (new_message u f n input) b w.store w'.store saved in
              (
                b,
                stored,
                answer,
                create_message_known laws ports u f' n' again c' b w' (rw same_conversation found')
                    joined' (rw (same_conversation, same_client) stored),
              )
        ]

    -- Two sends to one conversation under one client id that have both looked for the message before
    -- either writes: when both are accepted, one message is stored and is the answer to both, signed at
    -- the time of each, but it is announced twice, the second time under the second sender.
    pub create_message_race :
        (u f n v g p : ℕ) (input other : CreateMessageInput) (c c' : Conversation)
        (w w₁ w₂ : World S) (d₁ d₂ : MessageResponse)
        → other.conversation_id ≡ input.conversation_id
        → other.client_message_id ≡ input.client_message_id
        → insert_message db ports u f n input c w ≡ (ok d₁, w₁)
        → insert_message db ports v g p other c' w₁ ≡ (ok d₂, w₂)
        → (w₂.store ≡ w₁.store)
          × (b : Message) × (d₁ ≡ resolve db ports n (to_dto b))
          × (d₂ ≡ resolve db ports p (to_dto b))
          × (w₁.events ≡ w.events ++ event laws ports n u input c b ∷ [])
          × (w₂.events ≡ w₁.events ++ event laws ports p v other c' b ∷ [])
    unfolding new_message
    create_message_race u f n v g p input other c c' w w₁ w₂ d₁ d₂ same_conversation same_client h₁
          h₂ =
        let (b, checked, joined, put, answer, events) =
          insert_message_saves laws ports u f n input c w w₁ d₁ h₁ in
        let known =
          Saved-known (new_message u f n input) b w.store w₁.store
            (create_cases laws (new_message u f n input) b w.store w₁.store put) in
        let (b', checked', joined', put', answer', events') =
          insert_message_saves laws ports v g p other c' w₁ w₂ d₂ h₂ in
        let known' : db.find_by_client_message_id other.conversation_id other.client_message_id
              w₁.store
            ≡ some b =
          rw (same_conversation, same_client) known in
        elim (create_cases laws (new_message v g p other) b' w₁.store w₂.store put') [
          | inl created ↦ ground (arith, created.2, known')
          | inr (there, same) ↦
              let one : b' ≡ b = ground (arith, there, known') in
              (same, b, answer, ground (arith, answer', one), events, rw (sym one) events')
        ]
