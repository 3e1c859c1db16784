-- ===== src/Chat/Handlers/History.antt =====
-- Who changes a message, and until when.
use recruitment_platform_be.Prelude.{
  ℕ, ◌≡◌, ◌⊎◌, false, Option, none, some, ◌==◌, inl, inr, arith, ◌∙◌, Bool-cases, ==_iff,
}
use recruitment_platform_be.Prelude.Action.{Result, ok, Result-cases, pair_of_ok}
use recruitment_platform_be.Chat.Exceptions.{ChatException}
use recruitment_platform_be.Chat.Entity.{Message, is_deleted, edit, soft_delete}
use recruitment_platform_be.Chat.Repository.{Database, IsDatabase}
use recruitment_platform_be.Chat.Handlers.{Ports, World, new_message}
use recruitment_platform_be.Chat.Handlers.Sending.{Saved, create_message_accepted}
use recruitment_platform_be.Chat.Handlers.Refusals.{
  Command, create, edit_it, delete_it, read_it, start_one, Answer, message, conversation, done,
  execute, execute_unchanged, answer_ok,
}
use recruitment_platform_be.Chat.Handlers.Changes.{
  Changed, edit-Changed, delete-Changed, read_keeps, start_keeps,
}

-- The user who asks to edit or to delete.
abbrev pub editor : Command → Option ℕ
editor (create u f n i) = none
editor (edit_it u k t) = some u
editor (delete_it u k n) = some u
editor (read_it u k n) = none
editor (start_one r a f n) = none

-- The message that is to be edited or deleted.
abbrev pub edited : Command → Option ℕ
edited (create u f n i) = none
edited (edit_it u k t) = some k
edited (delete_it u k n) = some k
edited (read_it u k n) = none
edited (start_one r a f n) = none

-- The same message but for its content and its deletion.
abbrev pub Revises : Message → Message → Type 0
Revises m m' = m' ≡ record m { content = m'.content; deleted_at = m'.deleted_at }

pub edit-Revises : (m j : Message) (t : _) → edit m t ≡ ok j → (is_deleted m ≡ false) × Revises m j
unfolding edit
edit-Revises m j t h = (ground arith, ground arith)

pub soft_delete-Revises :
    (m j : Message) (n : ℕ) → soft_delete n m ≡ ok j → (is_deleted m ≡ false) × Revises m j
unfolding soft_delete
soft_delete-Revises m j n h = (ground arith, ground arith)

module _ {S : Type 0} {db : Database S} (laws : IsDatabase db) (ports : Ports) where
  -- A message after a request: it is the same, or its sender asked to edit or delete this very
  -- message, and it was not deleted yet.
  abbrev pub Follows : (by named : Option ℕ) → ℕ → Message → S → Type 0
  Follows by named k m s' =
      (db.find_message k s' ≡ some m)
      ⊎ ((by ≡ some m.sender_id)
          × (named ≡ some k)
          × (is_deleted m ≡ false)
          × (m' : Message) × (db.find_message k s' ≡ some m')
          × Revises m m')

  Changed-Follows :
      (u k' : ℕ) (method : Message → Result ChatException Message) (k : ℕ) (m : Message) (s s' : S)
      → ((i j : Message) → method i ≡ ok j → (is_deleted i ≡ false) × Revises i j)
      → Changed laws ports u k' method s s'
      → db.find_message k s ≡ some m
      → Follows (some u) (some k') k m s'
  Changed-Follows u k' method k m s s' revises c found = elim (Bool-cases (k == c.asked.id)) [
    | inl here ↦
        let same : m ≡ c.old = ground (arith, found, c.found, c.stays, ==_iff k c.asked.id) in
        let (open', revised) = revises c.old c.asked c.served in
        inr (
          ground (arith, c.sent, same),
          ground (arith, c.stays, ==_iff k c.asked.id),
          ground (arith, open', same),
          c.saved,
          ground (arith, c.written.1 k),
          ground (arith, c.written.0, revised, same),
        )
    | inr there ↦ inl (ground (arith, c.written.1 k))
  ]

  Saved-Follows :
      (n b : Message) (k : ℕ) (m : Message) (s s' : S) (by named : Option ℕ)
      → Saved laws n s b s'
      → db.find_message k s ≡ some m
      → Follows by named k m s'
  Saved-Follows n b k m s s' by named (inl created) found =
      inl (ground (arith, created.3 k, created.1, ==_iff k n.id))
  Saved-Follows n b k m s s' by named (inr (known, same)) found = inl (rw same found)

  accepted :
      (c : Command) (w w' : World S) (a : Answer) (k : ℕ) (m : Message)
      → execute db ports c w ≡ (ok a, w')
      → db.find_message k w.store ≡ some m
      → Follows (editor c) (edited c) k m w'.store
  accepted (create u f n i) w w' a k m h found =
      let (d, step) = answer_ok message _ a w' h in
      let (c, b, there, joined, answer, sent) =
        create_message_accepted laws ports u f n i w w' d step in
      elim sent [
        | inl (known, same) ↦ inl (rw same found)
        | inr (new, checked, saved, events) ↦
            Saved-Follows (new_message u f n i) b k m w.store w'.store none none saved found
      ]
  accepted (edit_it u j t) w w' a k m h found =
      let (d, step) = answer_ok message _ a w' h in
      Changed-Follows u j (λ x. edit x t) k m w.store w'.store (λ x y. edit-Revises x y t)
        (edit-Changed laws ports u j t w w' d step) found
  accepted (delete_it u j n) w w' a k m h found =
      let (d, step) = answer_ok message _ a w' h in
      Changed-Follows u j (soft_delete n) k m w.store w'.store (λ x y. soft_delete-Revises x y n)
        (delete-Changed laws ports u j n w w' d step) found
  accepted (read_it u j n) w w' a k m h found =
      let (_, step) = answer_ok (λ _. done) _ a w' h in
      inl ((read_keeps laws ports u j n w w' step).0.0 k ∙ found)
  accepted (start_one r j f n) w w' a k m h found =
      let (c, step) = answer_ok conversation _ a w' h in
      inl ((start_keeps laws ports r j f n w w' c step).0.0 k ∙ found)

  -- After any request a message is as it was, unless the request is its sender's to edit or delete
  -- this message, and it was not deleted; then only its content and its deletion may differ.
  pub execute_follows :
      (c : Command) (w : World S) (k : ℕ) (m : Message)
      → db.find_message k w.store ≡ some m
      → (db.find_message k (execute db ports c w).1.store ≡ some m)
        ⊎ ((editor c ≡ some m.sender_id)
            × (edited c ≡ some k)
            × (is_deleted m ≡ false)
            × (m' : Message) × (db.find_message k (execute db ports c w).1.store ≡ some m')
            × Revises m m')
  execute_follows c w k m found = elim (Result-cases (execute db ports c w).0) [
    | inl (a, e) ↦ accepted c w (execute db ports c w).1 a k m (pair_of_ok _ e) found
    | inr (x, e) ↦ inl (rw (execute_unchanged laws ports c w x e) found)
  ]
