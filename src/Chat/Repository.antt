-- ===== src/Chat/Repository.antt =====
-- The database behind src/modules/chat/infrastructure/persistence/prisma is a parameter: `S` is its
-- state, and `IsDatabase` is what its constraints and its transactions promise. The two
-- repositories of src/modules/chat/infrastructure/repositories stand on it.
pub mod Memory
use mathlib.Core.Path.{subst}
use recruitment_platform_be.Prelude.{
  ℕ, ◌≡◌, ◌≢◌, Bool, true, false, Option, none, some, List, ◌==◌, ◌&&◌, if◌then◌else◌,
}
use recruitment_platform_be.Prelude.Action.{Result, ok, err}
use recruitment_platform_be.Common.Database.{
  DatabaseError, unique_violation, is_unique_constraint_violation,
}
use recruitment_platform_be.Chat.Entity.{Message, Conversation, ConversationMember}

pub record Database (S : Type 0) : Type 0 where
  pub find_message : (id : ℕ) → S → Option Message
  pub find_by_client_message_id : (conversation_id client_message_id : ℕ) → S → Option Message
  pub create_and_touch : Message → S → Result DatabaseError Message × S
  pub update_message : Message → S → Result DatabaseError Message × S
  pub find_conversation : (id : ℕ) → S → Option Conversation
  pub find_by_application_id : (application_id : ℕ) → S → Option Conversation
  pub create_with_members :
      Conversation → List ConversationMember → S → Result DatabaseError Conversation × S
  pub mark_member_read : (conversation_id user_id at : ℕ) → S → Result DatabaseError (Unit {0}) × S
  pub find_last_read : (conversation_id user_id : ℕ) → S → Option ℕ

abbrev pub touched : (at : ℕ) → Conversation → Conversation
touched at c = record c { last_message_at = some at }

abbrev pub touched? : (id at : ℕ) → Option Conversation → Option Conversation
touched? id at none = none
touched? id at (some c) = some (if c.id == id then touched at c else c)

module _ {S : Type 0} (db : Database S) where
  open db use {
    find_message, find_by_client_message_id, find_conversation, find_by_application_id,
    find_last_read,
  }

  -- The message is written and its conversation touched, or nothing is.
  abbrev pub Created : Message → S → Result DatabaseError Message × S → Type 0
  Created m s w = elim w.0 [
    | ok b ↦
        (b ≡ record m { created_at = b.created_at })
        × (find_message m.id s ≡ none)
        × (find_by_client_message_id m.conversation_id m.client_message_id s ≡ none)
        × ((k : ℕ) → find_message k w.1 ≡ (if k == m.id then some b else find_message k s))
        × ((c k : ℕ)
            → find_by_client_message_id c k w.1 ≡ (
                if c == m.conversation_id && k == m.client_message_id
                then some b
                else find_by_client_message_id c k s))
        × ((k : ℕ)
            → find_conversation k w.1
              ≡ touched? m.conversation_id b.created_at (find_conversation k s))
        × ((a : ℕ)
            → find_by_application_id a w.1
              ≡ touched? m.conversation_id b.created_at (find_by_application_id a s))
    | err e ↦ w.1 ≡ s
  ]

  -- The columns that are ever changed of a message that is there.
  abbrev pub Updated : Message → Message → S → Result DatabaseError Message × S → Type 0
  Updated old m s w = elim w.0 [
    | ok b ↦
        (b ≡ record old {
          content = m.content;
          message_type = m.message_type;
          deleted_at = m.deleted_at;
        })
        × ((k : ℕ) → find_message k w.1 ≡ (if k == m.id then some b else find_message k s))
        × ((c k : ℕ)
            → find_by_client_message_id c k w.1 ≡ (
                if c == old.conversation_id && k == old.client_message_id
                then some b
                else find_by_client_message_id c k s))
        × ((k : ℕ) → find_conversation k w.1 ≡ find_conversation k s)
        × ((a : ℕ) → find_by_application_id a w.1 ≡ find_by_application_id a s)
    | err e ↦ w.1 ≡ s
  ]

  abbrev pub IsSameMessages : S → S → Type 0
  IsSameMessages s s' =
      ((k : ℕ) → find_message k s' ≡ find_message k s)
      × ((c k : ℕ) → find_by_client_message_id c k s' ≡ find_by_client_message_id c k s)

  -- The conversation and its members are written, or nothing is.
  abbrev pub Started : Conversation → S → Result DatabaseError Conversation × S → Type 0
  Started c s w = elim w.0 [
    | ok b ↦
        (b ≡ c)
        × (find_conversation c.id s ≡ none)
        × (find_by_application_id c.application_id s ≡ none)
        × ((k : ℕ)
            → find_conversation k w.1 ≡ (if k == c.id then some c else find_conversation k s))
        × ((a : ℕ)
            → find_by_application_id a w.1
              ≡ (if a == c.application_id then some c else find_by_application_id a s))
        × IsSameMessages s w.1
    | err e ↦ w.1 ≡ s
  ]

  abbrev pub MarkedRead : (c u at : ℕ) → S → Result DatabaseError (Unit {0}) × S → Type 0
  MarkedRead c u at s w = elim w.0 [
    | ok _ ↦
        ((d v : ℕ)
          → find_last_read d v w.1 ≡ (if d == c && v == u then some at else find_last_read d v s))
        × ((k : ℕ) → find_conversation k w.1 ≡ find_conversation k s)
        × ((a : ℕ) → find_by_application_id a w.1 ≡ find_by_application_id a s)
        × IsSameMessages s w.1
    | err e ↦ w.1 ≡ s
  ]

  pub record IsDatabase : Type 0 where
    pub create_outcome : (m : Message) (s : S) → Created m s (db.create_and_touch m s)
    pub update_outcome :
        (old m : Message) (s : S)
        → find_message m.id s ≡ some old
        → Updated old m s (db.update_message m s)
    pub start_outcome :
        (c : Conversation) (members : List ConversationMember) (s : S)
        → Started c s (db.create_with_members c members s)
    pub read_outcome : (c u at : ℕ) (s : S) → MarkedRead c u at s (db.mark_member_read c u at s)
    pub found_message : (k : ℕ) (m : Message) (s : S) → find_message k s ≡ some m → m.id ≡ k

  -- MessageInfraRepository.createAndTouchConversation: on a violation of a unique constraint, the
  -- message that is there.
  unfoldable pub create_and_touch_conversation : Message → S → Result DatabaseError Message × S
  create_and_touch_conversation m s =
      let (r, s') = db.create_and_touch m s in
      elim r [
        | ok saved ↦ (ok saved, s')
        | err e ↦
            if is_unique_constraint_violation e
            then (
              elim (db.find_by_client_message_id m.conversation_id m.client_message_id s') [
                | some existing ↦ ok existing
                | none ↦ err e
              ],
              s',
            )
            else (err e, s')
      ]

  -- ConversationInfraRepository.findOrCreateForApplication: whether it was created is the second
  -- component.
  unfoldable pub find_or_create_for_application :
      Conversation
      → List ConversationMember
      → S
      → Result DatabaseError (Option Conversation × Bool) × S
  find_or_create_for_application c members s = elim (db.find_by_application_id c.application_id s) [
    | some existing ↦ (ok (some existing, false), s)
    | none ↦
        let (r, s') = db.create_with_members c members s in
        elim r [
          | ok saved ↦ (ok (some saved, true), s')
          | err e ↦
              if is_unique_constraint_violation e
              then (ok (db.find_by_application_id c.application_id s', false), s')
              else (err e, s')
        ]
  ]
