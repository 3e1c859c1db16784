-- ===== src/Chat/Handlers/Soundness.antt =====
-- What holds of every message in the database after any requests.
use recruitment_platform_be.Prelude.{
  ℕ, ◌≡◌, ◌⊎◌, Bool, true, false, none, some, ◌==◌, inl, inr, arith, Bool-cases,
}
use recruitment_platform_be.Prelude.Action.{Result, ok}
use recruitment_platform_be.Chat.Exceptions.{ChatException}
use recruitment_platform_be.Chat.Entity.{Message, is_member, is_deleted}
use recruitment_platform_be.Chat.Repository.{Database, IsDatabase}
use recruitment_platform_be.Chat.Handlers.{Ports}
use recruitment_platform_be.Chat.Handlers.Sending.{Saved}
use recruitment_platform_be.Chat.Handlers.Changes.{Changed}
use recruitment_platform_be.Chat.Handlers.History.{Revises}
use recruitment_platform_be.Chat.Handlers.Content.{IsFine}

module _ {S : Type 0} (db : Database S) where
  -- The user is a participant of the conversation.
  abbrev pub is_in : (conversation_id user_id : ℕ) → S → Bool
  is_in k u s = elim (db.find_conversation k s) [ some c ↦ is_member c u | none ↦ false ]

  -- Every message is fine, and its sender is a participant of its conversation.
  pub record IsChatSound (s : S) : Type 0 where
    pub fine : (k : ℕ) (m : Message) → db.find_message k s ≡ some m → IsFine m
    pub joined :
        (k : ℕ) (m : Message)
        → db.find_message k s ≡ some m
        → is_in m.conversation_id m.sender_id s ≡ true

  -- A message afterwards was there before, or it is fine and its sender takes part.
  pub record IsStep (s s' : S) : Type 0 where
    pub stays : (k u : ℕ) → is_in k u s ≡ true → is_in k u s' ≡ true
    pub grown :
        (k : ℕ) (m : Message)
        → db.find_message k s' ≡ some m
        → (db.find_message k s ≡ some m)
          ⊎ (IsFine m × (is_in m.conversation_id m.sender_id s ≡ true))

  pub IsStep-IsChatSound : (s s' : S) → IsStep s s' → IsChatSound s → IsChatSound s'
  IsStep-IsChatSound s s' step sound = record {
    fine = λ k m found. elim (step.grown k m found) [
      | inl old ↦ sound.fine k m old
      | inr (fine, joined) ↦ fine
    ];
    joined = λ k m found. step.stays m.conversation_id m.sender_id (elim (step.grown k m found) [
      | inl old ↦ sound.joined k m old
      | inr (fine, joined) ↦ joined
    ]);
  }

module _ {S : Type 0} {db : Database S} (laws : IsDatabase db) (ports : Ports) where
  pub Saved-IsStep :
      (n b : Message) (s s' : S)
      → IsFine n
      → is_in db n.conversation_id n.sender_id s ≡ true
      → Saved laws n s b s'
      → IsStep db s s'
  unfolding is_member
  Saved-IsStep n b s s' fine joined (inl created) = record {
    stays = λ k u h. ground (arith, created.5 k);
    grown = λ k m found. elim (Bool-cases (k == n.id)) [
      | inl here ↦
          let same : m ≡ record n { created_at = m.created_at } =
            ground (arith, created.3 k, created.0) in
          inr (
            rw same (
              record {
                not_system = fine.not_system;
                few = fine.few;
                keys = fine.keys;
                full = fine.full;
                trimmed = fine.trimmed;
              },
              joined,
            ))
      | inr there ↦ inl (ground (arith, created.3 k))
    ];
  }
  Saved-IsStep n b s s' fine joined (inr (known, same)) =
      rw same (record { stays = λ k u h. h; grown = λ k m found. inl found })

  pub Changed-IsStep :
      (u k' : ℕ) (method : Message → Result ChatException Message) (s s' : S)
      → ((i j : Message) → method i ≡ ok j → (is_deleted i ≡ false) × Revises i j)
      → ((i j : Message) → method i ≡ ok j → IsFine i → IsFine j)
      → Changed laws ports u k' method s s'
      → IsChatSound db s
      → IsStep db s s'
  Changed-IsStep u k' method s s' revises keeps c sound = record {
    stays = λ k v h. ground (arith, c.written.3 k);
    grown = λ k m found. elim (Bool-cases (k == c.asked.id)) [
      | inl here ↦
          let revised = (revises c.old c.asked c.served).1 in
          let same : m ≡ c.asked = ground (arith, c.written.1 k, c.written.0, revised) in
          inr (
            rw same (keeps c.old c.asked c.served (sound.fine k' c.old c.found)),
            ground (arith, same, revised, sound.joined k' c.old c.found),
          )
      | inr there ↦ inl (ground (arith, c.written.1 k))
    ];
  }
