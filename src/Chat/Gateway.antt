-- ===== src/Chat/Gateway.antt =====
-- src/modules/chat/infrastructure/gateways/chat.gateway.ts on one process without Redis, and the
-- listener of src/modules/chat/infrastructure/listeners/chat-events.listener.ts. A handshake is given
-- by the user that its cookie authenticates, a payload by what its validation gives; `none` is a
-- failure. Handlers run one at a time. Rooms are Socket.IO's: a frame names the users or the
-- conversation it is for.
pub mod Quota
use recruitment_platform_be.Prelude.{
  ℕ, Bool, true, false, Option, none, some, List, [], ◌∷◌, ◌++◌, if◌then◌else◌,
}
use recruitment_platform_be.Prelude.Action.{Result, ok, err}
use recruitment_platform_be.Chat.Exceptions.{ChatException}
use recruitment_platform_be.Chat.Entity.{MessageResponse, Conversation, other_participant_id}
use recruitment_platform_be.Chat.Repository.{Database}
use recruitment_platform_be.Chat.Presence.{Presence, add_socket, remove_socket, is_online}
use recruitment_platform_be.Chat.RateLimiter.{
  Limiter, consume_send_quota, consume_read_quota, clear_in_memory_quota,
}
use recruitment_platform_be.Chat.Handlers.{
  Ports, World, CreateMessageInput, MessageSentEvent, create_message, mark_conversation_read,
}

-- What the gateway sends, and the notifications that the listener asks for.
pub data Frame : Type 0 where
  unauthorized : (socket_id : ℕ) → Frame
  user_online user_offline : (user_id to : ℕ) → Frame
  message_ack : (socket_id : ℕ) → MessageResponse → Frame
  message_error : (socket_id : ℕ) → (client_message_id : Option ℕ) → Frame
  message_new : (conversation_id sender_id recipient_id : ℕ) → MessageResponse → Frame
  message_read : (conversation_id user_id : ℕ) → Frame
  error_frame : (socket_id : ℕ) → Frame
  notification : (user_id : ℕ) → MessageSentEvent → Frame

pub record Gateway (S : Type 0) : Type 0 where
  pub presence : Presence
  pub limiter : Limiter
  pub world : World S
  pub frames : List Frame

abbrev send : {S : Type 0} → Frame → Gateway S → Gateway S
send f g = record g { frames = g.frames ++ f ∷ [] }

-- `otherParticipantId` throws for a stranger; `findManyForUser` finds none.
abbrev to_others : (user_id : ℕ) → (ℕ → Frame) → List Conversation → List Frame
to_others user_id frame [] = []
to_others user_id frame (c ∷ cs) =
    let rest = to_others user_id frame cs in
    elim (other_participant_id c user_id) [ ok other ↦ frame other ∷ rest | err e ↦ rest ]

-- The announcement of the events that a command emitted: the broadcast, and the notification of a
-- recipient who is offline.
abbrev announce : Presence → List MessageSentEvent → List Frame
announce presence [] = []
announce presence (e ∷ es) =
    let rest = announce presence es in
    message_new e.conversation_id e.sender_id e.recipient_id e.message
    ∷ (if is_online e.recipient_id presence then rest else notification e.recipient_id e ∷ rest)

-- `findManyForUser(userId, 1, 100)`
module _ {S : Type 0} (find_many_for_user : (user_id : ℕ) → S → List Conversation) where
  abbrev broadcast_presence : (user_id : ℕ) → (ℕ → Frame) → Gateway S → Gateway S
  broadcast_presence user_id frame g = record g {
    frames = g.frames ++ to_others user_id frame (find_many_for_user user_id g.world.store);
  }

  unfoldable pub handle_connection : (user : Option ℕ) → (socket_id : ℕ) → Gateway S → Gateway S
  handle_connection none socket_id g = send (unauthorized socket_id) g
  handle_connection (some user_id) socket_id g =
      let (just_came_online, presence) = add_socket user_id socket_id g.presence in
      let joined = record g { presence = presence } in
      if just_came_online then broadcast_presence user_id (user_online user_id) joined else joined

  -- A socket that never authenticated has no user.
  unfoldable pub handle_disconnect : (user : Option ℕ) → (socket_id : ℕ) → Gateway S → Gateway S
  handle_disconnect none socket_id g = g
  handle_disconnect (some user_id) socket_id g =
      let (just_went_offline, presence) = remove_socket user_id socket_id g.presence in
      let gone = record g { presence = presence } in
      if just_went_offline
      then broadcast_presence user_id (user_offline user_id)
          (record gone { limiter = clear_in_memory_quota user_id g.limiter })
      else gone

module _ {S : Type 0} (db : Database S) (ports : Ports) where
  -- `claimed` is the client id in the raw payload.
  unfoldable pub on_message_send :
      (user_id socket_id now fresh_id : ℕ)
      → (claimed : Option ℕ) → Option CreateMessageInput
      → Gateway S
      → Gateway S
  on_message_send user_id socket_id now fresh_id claimed payload g =
      let (allowed, limiter) = consume_send_quota user_id now g.limiter in
      let counted = record g { limiter = limiter } in
      if allowed
      then elim payload [
        | none ↦ send (message_error socket_id none) counted
        | some input ↦
            let (r, w) =
              create_message db ports user_id fresh_id now input (record g.world { events = [] }) in
            elim r [
              | ok message ↦ send (message_ack socket_id message) (record counted {
                world = record w { events = g.world.events ++ w.events };
                frames = g.frames ++ announce g.presence w.events;
              })
              | err e ↦
                  send (message_error socket_id (some input.client_message_id))
                    (record counted { world = record w { events = g.world.events ++ w.events } })
            ]
      ]
      else send (message_error socket_id claimed) counted

  unfoldable pub on_message_read :
      (user_id socket_id now : ℕ) → (payload : Option ℕ) → Gateway S → Gateway S
  on_message_read user_id socket_id now payload g =
      let (allowed, limiter) = consume_read_quota user_id now g.limiter in
      let counted = record g { limiter = limiter } in
      if allowed
      then elim payload [
        | none ↦ send (error_frame socket_id) counted
        | some conversation_id ↦
            let (r, w) = mark_conversation_read db ports user_id conversation_id now g.world in
            elim r [
              | ok _ ↦ send (message_read conversation_id user_id) (record counted { world = w })
              | err e ↦ send (error_frame socket_id) (record counted { world = w })
            ]
      ]
      else send (error_frame socket_id) counted
