-- ===== src/Chat/Handlers/Runs.antt =====
-- Requests about messages and conversations, one after the other.
use recruitment_platform_be.Prelude.{
  ℕ, ◌≡◌, true, some, List, [], ◌∷◌, inl, inr, arith, Option-cases,
}
use recruitment_platform_be.Prelude.Action.{ok, Result-cases, pair_of_ok}
use recruitment_platform_be.Chat.Entity.{
  Message, Conversation, is_member, is_deleted, edit, soft_delete,
}
use recruitment_platform_be.Chat.Repository.{Database, IsDatabase}
use recruitment_platform_be.Chat.Handlers.{Ports, World, CreateMessageInput, new_message}
use recruitment_platform_be.Chat.Handlers.Sending.{Saved, create_message_accepted}
use recruitment_platform_be.Chat.Handlers.Refusals.{
  Command, create, edit_it, delete_it, read_it, start_one, Answer, message, conversation, done,
  execute, execute_unchanged, answer_ok,
}
use recruitment_platform_be.Chat.Handlers.Changes.{
  edit-Changed, delete-Changed, read_keeps, start_keeps,
}
use recruitment_platform_be.Chat.Handlers.History.{
  edit-Revises, soft_delete-Revises, execute_follows,
}
use recruitment_platform_be.Chat.Handlers.Content.{
  IsFine, new_message-IsFine, edit-IsFine, soft_delete-IsFine,
}
use recruitment_platform_be.Chat.Handlers.Soundness.{
  IsChatSound, IsStep, IsStep-IsChatSound, Saved-IsStep, Changed-IsStep,
}

module _ {S : Type 0} (db : Database S) (ports : Ports) where
  unfoldable pub run : List Command → World S → World S
  run [] w = w
  run (c ∷ cs) w = run cs (execute db ports c w).1

module _ {S : Type 0} {db : Database S} (laws : IsDatabase db) (ports : Ports) where
  create-IsStep :
      (u f n : ℕ) (i : CreateMessageInput) (c : Conversation) (w w' : World S) (b : Message)
      → db.find_conversation i.conversation_id w.store ≡ some c
      → is_member c u ≡ true
      → Saved laws (new_message u f n i) w.store b w'.store
      → IsFine (new_message u f n i)
      → IsStep db w.store w'.store
  unfolding new_message
  create-IsStep u f n i c w w' b found joined saved fine =
      Saved-IsStep laws ports (new_message u f n i) b w.store w'.store fine (ground arith) saved

  accepted :
      (c : Command) (w w' : World S) (a : Answer)
      → execute db ports c w ≡ (ok a, w')
      → IsChatSound db w.store
      → IsStep db w.store w'.store
  accepted (create u f n i) w w' a h sound =
      let (d, step) = answer_ok message _ a w' h in
      let (c, b, found, joined, answer, sent) =
        create_message_accepted laws ports u f n i w w' d step in
      elim sent [
        | inl (known, same) ↦
            rw same (record { stays = λ k v x. x; grown = λ k m there. inl there })
        | inr (new, checked, saved, events) ↦
            create-IsStep u f n i c w w' b found joined saved (new_message-IsFine u f n i checked)
      ]
  accepted (edit_it u j t) w w' a h sound =
      let (d, step) = answer_ok message _ a w' h in
      Changed-IsStep laws ports u j (λ x. edit x t) w.store w'.store (λ x y. edit-Revises x y t)
        (edit-IsFine t) (edit-Changed laws ports u j t w w' d step) sound
  accepted (delete_it u j n) w w' a h sound =
      let (d, step) = answer_ok message _ a w' h in
      Changed-IsStep laws ports u j (soft_delete n) w.store w'.store
        (λ x y. soft_delete-Revises x y n) (soft_delete-IsFine n)
        (delete-Changed laws ports u j n w w' d step) sound
  accepted (read_it u j n) w w' a h sound =
      let (_, step) = answer_ok (λ _. done) _ a w' h in
      let (same, members) = read_keeps laws ports u j n w w' step in
      record {
        stays = λ k v x. ground (arith, members k);
        grown = λ k m found. inl (ground (arith, same.0 k));
      }
  accepted (start_one r j f n) w w' a h sound =
      let (c, step) = answer_ok conversation _ a w' h in
      let (same, members) = start_keeps laws ports r j f n w w' c step in
      record {
        stays = λ k v x. elim (Option-cases (db.find_conversation k w.store)) [
          | inl missing ↦ ground arith
          | inr (y, found) ↦ ground (arith, members k y found)
        ];
        grown = λ k m found. inl (ground (arith, same.0 k));
      }

  execute-IsChatSound :
      (c : Command) (w : World S)
      → IsChatSound db w.store
      → IsChatSound db (execute db ports c w).1.store
  execute-IsChatSound c w sound = elim (Result-cases (execute db ports c w).0) [
    | inl (a, e) ↦
        IsStep-IsChatSound db w.store (execute db ports c w).1.store
          (accepted c w (execute db ports c w).1 a (pair_of_ok _ e) sound) sound
    | inr (x, e) ↦ rw (execute_unchanged laws ports c w x e) sound
  ]

  -- Whatever requests are served one after the other, refused ones included: every message in the
  -- database comes from a participant of its conversation, is no system message, is trimmed, has
  -- content or an attachment, at most five attachments, and each of them under a key of the private
  -- uploads of the chat, if that was so before.
  pub run-IsChatSound :
      (cs : List Command) (w : World S)
      → IsChatSound db w.store
      → IsChatSound db (run db ports cs w).store
  unfolding run
  run-IsChatSound [] w sound = sound
  run-IsChatSound (c ∷ cs) w sound = run-IsChatSound cs _ (execute-IsChatSound c w sound)

  -- A deleted message stays as it is under any requests.
  pub run_deleted :
      (cs : List Command) (w : World S) (k : ℕ) (m : Message)
      → db.find_message k w.store ≡ some m
      → is_deleted m ≡ true
      → db.find_message k (run db ports cs w).store ≡ some m
  unfolding run
  run_deleted [] w k m found deleted = found
  run_deleted (c ∷ cs) w k m found deleted = elim (execute_follows laws ports c w k m found) [
    | inl same ↦ run_deleted cs _ k m same deleted
    | inr (by, named, open', m', there, revised) ↦ ground arith
  ]
