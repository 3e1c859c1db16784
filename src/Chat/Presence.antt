-- ===== src/Chat/Presence.antt =====
-- src/modules/chat/infrastructure/services/chat-presence.service.ts. A map is a function, with
-- `none` for a missing key; a set of sockets is a list.
pub mod Connections
use recruitment_platform_be.Prelude.{
  ℕ, Bool, true, false, Option, none, some, List, [], ◌∷◌, ◌==◌, not, filter, includes, or_else,
  if◌then◌else◌,
}

abbrev pub Presence : Type 0
Presence = ℕ → Option (List ℕ)

abbrev put : ℕ → Option (List ℕ) → Presence → Presence
put user_id sockets presence k = if k == user_id then sockets else presence k

-- `sockets.size === 0`
abbrev pub is_empty_set : List ℕ → Bool
is_empty_set [] = true
is_empty_set (s ∷ sockets) = false

-- `sockets.add(s)`
abbrev pub add : ℕ → List ℕ → List ℕ
add s sockets = if includes s sockets then sockets else s ∷ sockets

-- `sockets.delete(s)`
abbrev pub delete : ℕ → List ℕ → List ℕ
delete s = filter (λ x. not (x == s))

unfoldable pub add_socket : (user_id socket_id : ℕ) → Presence → Bool × Presence
add_socket user_id socket_id presence =
    let sockets = or_else (presence user_id) [] in
    (is_empty_set sockets, put user_id (some (add socket_id sockets)) presence)

unfoldable pub remove_socket : (user_id socket_id : ℕ) → Presence → Bool × Presence
remove_socket user_id socket_id presence = elim (presence user_id) [
  | none ↦ (false, presence)
  | some sockets ↦
      let left = delete socket_id sockets in
      if is_empty_set left
      then (true, put user_id none presence)
      else (false, put user_id (some left) presence)
]

unfoldable pub is_online : (user_id : ℕ) → Presence → Bool
is_online user_id presence = not (is_empty_set (or_else (presence user_id) []))
