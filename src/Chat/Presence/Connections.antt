-- ===== src/Chat/Presence/Connections.antt =====
-- The service is a list of connections, seen by user.
use recruitment_platform_be.Prelude.{
  ℕ, ◌≡◌, Bool, true, false, none, List, [], ◌∷◌, ◌==◌, ◌&&◌, ◌||◌, not, any, filter, includes,
  or_else, is_some, arith, refl, ap, ◌∙◌, inl, inr, Bool-cases, ==_iff,
}
use recruitment_platform_be.Chat.Presence.{
  Presence, add_socket, remove_socket, is_online, is_empty_set, add, delete,
}

pub data Event : Type 0 where
  connect disconnect : (user_id socket_id : ℕ) → Event

-- The user and the socket of each connection.
abbrev pub Connections : Type 0
Connections = List (ℕ × ℕ)

abbrev pub is_of : (user_id : ℕ) → ℕ × ℕ → Bool
is_of u c = c.0 == u

abbrev pub is_at : (user_id socket_id : ℕ) → ℕ × ℕ → Bool
is_at u s c = c.0 == u && c.1 == s

-- What the service stands for.
unfoldable pub connections : List Event → Connections → Connections
connections [] cs = cs
connections (connect u s ∷ es) cs = connections es ((u, s) ∷ cs)
connections (disconnect u s ∷ es) cs = connections es (filter (λ c. not (is_at u s c)) cs)

abbrev pub serve : Event → Presence → Bool × Presence
serve (connect u s) = add_socket u s
serve (disconnect u s) = remove_socket u s

unfoldable pub run : List Event → Presence → Presence
run [] presence = presence
run (e ∷ es) presence = run es (serve e presence).1

abbrev sockets_of : ℕ → Presence → List ℕ
sockets_of u presence = or_else (presence u) []

-- The connections after one event.
abbrev follow : Event → Connections → Connections
follow (connect u s) cs = (u, s) ∷ cs
follow (disconnect u s) cs = filter (λ c. not (is_at u s c)) cs

-- The same connections, and no empty set in the map.
pub record IsSame (presence : Presence) (cs : Connections) : Type 0 where
  pub members : (u s : ℕ) → includes s (sockets_of u presence) ≡ any (is_at u s) cs
  pub no_empty : (u : ℕ) → is_some (presence u) ≡ not (is_empty_set (sockets_of u presence))

includes-delete :
    (x s : ℕ) (sockets : List ℕ)
    → includes x (delete s sockets) ≡ (includes x sockets && not (x == s))
includes-delete x s [] = refl
includes-delete x s (y ∷ sockets) = ground (arith, includes-delete x s sockets)

any-filter :
    (u s v t : ℕ) (cs : Connections)
    → any (is_at u s) (filter (λ c. not (is_at v t c)) cs)
      ≡ (any (is_at u s) cs && not (u == v && s == t))
any-filter u s v t [] = ground arith
any-filter u s v t ((w, x) ∷ cs) = ground (arith, any-filter u s v t cs)

includes-add :
    (x s : ℕ) (sockets : List ℕ) → includes x (add s sockets) ≡ (s == x || includes x sockets)
includes-add x s sockets = ground (arith, ==_iff x s)

includes_head :
    (sockets : List ℕ) (x : ℕ) → includes x sockets ≡ true → is_empty_set sockets ≡ false
includes_head [] x h = ground arith
includes_head (y ∷ sockets) x h = refl

serve-IsSame :
    (e : Event) (presence : Presence) (cs : Connections)
    → IsSame presence cs
    → IsSame (serve e presence).1 (follow e cs)
unfolding add_socket remove_socket
serve-IsSame (connect u s) presence cs same = record {
  members =
      λ v t. ground (arith, includes-add t s (sockets_of u presence), same.members v t, ==_iff v u);
  no_empty = λ v. ground (arith, same.no_empty v);
}
serve-IsSame (disconnect u s) presence cs same = record {
  members = λ v t. ground (
    arith,
    includes-delete t s (sockets_of u presence),
    any-filter v t u s cs,
    same.members v t,
    ==_iff v u,
  );
  no_empty = λ v. ground (arith, same.no_empty v);
}

any_at :
    (u : ℕ) (cs : Connections) → any (is_of u) cs ≡ true → (s : ℕ) × (any (is_at u s) cs ≡ true)
any_at u [] h = ground arith
any_at u ((v, s) ∷ cs) h = elim (Bool-cases (v == u)) [
  | inl same ↦ (s, ground (arith, ==_iff s s))
  | inr other ↦ let (t, found) = any_at u cs (ground arith) in (t, ground (arith, found))
]

at_of : (u s : ℕ) (cs : Connections) → any (is_at u s) cs ≡ true → any (is_of u) cs ≡ true
at_of u s [] h = ground arith
at_of u s ((v, t) ∷ cs) h = ground (arith, at_of u s cs)

first_of : (sockets : List ℕ) → is_empty_set sockets ≡ false → (s : ℕ) × (includes s sockets ≡ true)
first_of [] h = ground arith
first_of (s ∷ sockets) h = (s, ground (arith, ==_iff s s))

IsSame-online :
    (u : ℕ) (presence : Presence) (cs : Connections)
    → IsSame presence cs
    → is_online u presence ≡ any (is_of u) cs
unfolding is_online
IsSame-online u presence cs same = elim (Bool-cases (any (is_of u) cs)) [
  | inl some' ↦
      let (s, found) = any_at u cs some' in
      ground (arith, same.members u s, includes_head (sockets_of u presence) s, found)
  | inr none' ↦ elim (Bool-cases (is_empty_set (sockets_of u presence))) [
    | inl blank ↦ ground arith
    | inr full ↦
        let (s, found) = first_of (sockets_of u presence) full in
        ground (arith, same.members u s, at_of u s cs, found)
  ]
]

run-IsSame :
    (es : List Event) (presence : Presence) (cs : Connections)
    → IsSame presence cs
    → IsSame (run es presence) (connections es cs)
unfolding run connections
run-IsSame [] presence cs same = same
run-IsSame (connect u s ∷ es) presence cs same =
    run-IsSame es _ _ (serve-IsSame (connect u s) presence cs same)
run-IsSame (disconnect u s ∷ es) presence cs same =
    run-IsSame es _ _ (serve-IsSame (disconnect u s) presence cs same)

add_answer :
    (u s : ℕ) (presence : Presence) → (add_socket u s presence).0 ≡ not (is_online u presence)
unfolding add_socket is_online
add_answer u s presence = ground arith

remove_answer :
    (u s : ℕ) (presence : Presence)
    → is_some (presence u) ≡ not (is_empty_set (sockets_of u presence))
    → (remove_socket u s presence).0
      ≡ (is_online u presence && not (is_online u (remove_socket u s presence).1))
unfolding remove_socket is_online
remove_answer u s presence h = ground arith

abbrev pub start : Presence
start = λ k. none

-- After any events, a user is online exactly when a connection of the user is open; adding a socket
-- answers whether the user was offline, and removing one whether the user was online and is no more.
pub run_refines :
    (es : List Event) (u s : ℕ)
    → let presence = run es start in
      let cs = connections es [] in
      let left = filter (λ c. not (is_at u s c)) cs in
      (is_online u presence ≡ any (is_of u) cs)
      × ((add_socket u s presence).0 ≡ not (any (is_of u) cs))
      × (is_online u (remove_socket u s presence).1 ≡ any (is_of u) left)
      × ((remove_socket u s presence).0 ≡ (any (is_of u) cs && not (any (is_of u) left)))
run_refines es u s =
    let presence = run es start in
    let cs = connections es [] in
    let same = run-IsSame es start [] (record { members = λ v t. refl; no_empty = λ v. refl }) in
    let before = IsSame-online u presence cs same in
    let after =
      IsSame-online u (remove_socket u s presence).1 (follow (disconnect u s) cs)
        (serve-IsSame (disconnect u s) presence cs same) in
    (
      before,
      add_answer u s presence ∙ ap not before,
      after,
      remove_answer u s presence (same.no_empty u) ∙ (λ i. before i && not (after i)),
    )
