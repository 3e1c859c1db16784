-- ===== src/Chat/Handlers/Changes.antt =====
-- What a request may change of a message that is there.
use mathlib.Core.Path.{subst}
use recruitment_platform_be.Prelude.{ℕ, ◌≡◌, some, inl, inr, arith, refl, Option-cases}
use recruitment_platform_be.Prelude.Action.{Result, ok, Result-cases}
use recruitment_platform_be.Common.Text.{Text}
use recruitment_platform_be.Chat.Exceptions.{ChatException}
use recruitment_platform_be.Chat.Entity.{
  Message, MessageResponse, Conversation, edit, soft_delete, ensure_sender, ensure_member, to_dto,
}
use recruitment_platform_be.Chat.Repository.{
  Database, IsDatabase, Updated, Started, MarkedRead, IsSameMessages,
  find_or_create_for_application,
}
use recruitment_platform_be.Chat.Handlers.{
  Ports, World, edit_message, delete_message, mark_conversation_read, create_conversation, opened,
}

module _ {S : Type 0} {db : Database S} (laws : IsDatabase db) (ports : Ports) where
  -- The message that a request changed, and the row that was written.
  pub record Changed (u k : ℕ) (method : Message → Result ChatException Message) (s s' : S)
      : Type 0 where
    pub old : Message
    pub asked : Message
    pub saved : Message
    pub found : db.find_message k s ≡ some old
    pub sent : old.sender_id ≡ u
    pub stays : asked.id ≡ k
    pub served : method old ≡ ok asked
    pub written : Updated db old asked s (ok saved, s')

  updated :
      (u k : ℕ) (method : Message → Result ChatException Message) (old m b : Message) (s s' : S)
      → ((i j : Message) → method i ≡ ok j → j.id ≡ i.id)
      → db.find_message k s ≡ some old
      → old.sender_id ≡ u
      → method old ≡ ok m
      → db.update_message m s ≡ (ok b, s')
      → Changed u k method s s'
  updated u k method old m b s s' keeps found sent served put = record {
    old = old;
    asked = m;
    saved = b;
    found = found;
    sent = sent;
    stays = ground (arith, keeps old m served, laws.found_message k old s found);
    served = served;
    written = subst (Updated db old m s) put (
        laws.update_outcome old m s
          (ground (arith, keeps old m served, laws.found_message k old s found, found)));
  }

  edit_found :
      (u k : ℕ) (t : Text) (w w' : World S) (d : MessageResponse)
      → edit_message db ports u k t w ≡ (ok d, w')
      → (old : Message) × (m : Message) × (b : Message) × (db.find_message k w.store ≡ some old)
        × (old.sender_id ≡ u)
        × (edit old t ≡ ok m)
        × (db.update_message m w.store ≡ (ok b, w'.store))
        × (d ≡ to_dto b)
  unfolding edit_message ensure_sender
  edit_found u k t w w' d h = elim (Option-cases (db.find_message k w.store)) [
    | inl missing ↦ ground arith
    | inr (old, found) ↦ elim (Result-cases (edit old t)) [
      | inl (m, served) ↦ elim (Result-cases (db.update_message m w.store).0) [
        | inl (b, put) ↦ (old, m, b, found, ground arith, served, ground arith, ground arith)
        | inr (x, failed) ↦ ground arith
      ]
      | inr (x, failed) ↦ ground arith
    ]
  ]

  delete_found :
      (u k n : ℕ) (w w' : World S) (d : MessageResponse)
      → delete_message db ports u k n w ≡ (ok d, w')
      → (old : Message) × (m : Message) × (b : Message) × (db.find_message k w.store ≡ some old)
        × (old.sender_id ≡ u)
        × (soft_delete n old ≡ ok m)
        × (db.update_message m w.store ≡ (ok b, w'.store))
        × (d ≡ to_dto b)
  unfolding delete_message ensure_sender
  delete_found u k n w w' d h = elim (Option-cases (db.find_message k w.store)) [
    | inl missing ↦ ground arith
    | inr (old, found) ↦ elim (Result-cases (soft_delete n old)) [
      | inl (m, served) ↦ elim (Result-cases (db.update_message m w.store).0) [
        | inl (b, put) ↦ (old, m, b, found, ground arith, served, ground arith, ground arith)
        | inr (x, failed) ↦ ground arith
      ]
      | inr (x, failed) ↦ ground arith
    ]
  ]

  edit_id : (t : Text) (i j : Message) → edit i t ≡ ok j → j.id ≡ i.id
  unfolding edit
  edit_id t i j h = ground arith

  soft_delete_id : (n : ℕ) (i j : Message) → soft_delete n i ≡ ok j → j.id ≡ i.id
  unfolding soft_delete
  soft_delete_id n i j h = ground arith

  pub edit-Changed :
      (u k : ℕ) (t : Text) (w w' : World S) (d : MessageResponse)
      → edit_message db ports u k t w ≡ (ok d, w')
      → Changed u k (λ m. edit m t) w.store w'.store
  edit-Changed u k t w w' d h =
      let (old, m, b, found, sent, served, put, _) = edit_found u k t w w' d h in
      updated u k (λ i. edit i t) old m b w.store w'.store (edit_id t) found sent served put

  pub delete-Changed :
      (u k n : ℕ) (w w' : World S) (d : MessageResponse)
      → delete_message db ports u k n w ≡ (ok d, w')
      → Changed u k (soft_delete n) w.store w'.store
  delete-Changed u k n w w' d h =
      let (old, m, b, found, sent, served, put, _) = delete_found u k n w w' d h in
      updated u k (soft_delete n) old m b w.store w'.store (soft_delete_id n) found sent served put

  -- The other requests leave every message as it is.
  pub read_keeps :
      (u k n : ℕ) (w w' : World S)
      → mark_conversation_read db ports u k n w ≡ (ok tt, w')
      → IsSameMessages db w.store w'.store
        × ((j : ℕ) → db.find_conversation j w'.store ≡ db.find_conversation j w.store)
  unfolding mark_conversation_read ensure_member
  read_keeps u k n w w' h =
      let put : db.mark_member_read k u n w.store ≡ (ok tt, w'.store) = ground arith in
      let read = subst (MarkedRead db k u n w.store) put (laws.read_outcome k u n w.store) in
      (read.3, read.1)

  pub start_keeps :
      (r a f n : ℕ) (w w' : World S) (c : Conversation)
      → create_conversation db ports r a f n w ≡ (ok c, w')
      → IsSameMessages db w.store w'.store
        × ((j : ℕ) (x : Conversation)
            → db.find_conversation j w.store ≡ some x
            → db.find_conversation j w'.store ≡ some x)
  unfolding create_conversation find_or_create_for_application
  start_keeps r a f n w w' c h = elim (Option-cases (ports.find_application a)) [
    | inl missing ↦ ground arith
    | inr (application, known) ↦ elim (Option-cases (ports.find_job application.job_id)) [
      | inl missing ↦ ground arith
      | inr (job, known') ↦
          let (x, members) = opened r f n application job in
          elim (Option-cases (db.find_by_application_id application.id w.store)) [
            | inl none' ↦ elim (Result-cases (db.create_with_members x members w.store).0) [
              | inl (b, made) ↦
                  let put : db.create_with_members x members w.store ≡ (ok b, w'.store) =
                    ground arith in
                  let started =
                    subst (Started db x w.store) put (laws.start_outcome x members w.store) in
                  (started.5, λ j y there. ground (arith, started.3 j, started.1))
              | inr (e, failed) ↦
                  let same : w'.store ≡ w.store =
                    ground (arith, laws.start_outcome x members w.store) in
                  rw same ((λ j. refl, λ c j. refl), λ j y there. there)
            ]
            | inr (y, known'') ↦
                let same : w'.store ≡ w.store = ground arith in
                rw same ((λ j. refl, λ c j. refl), λ j y there. there)
          ]
    ]
  ]
