-- ===== src/Chat/Handlers/Starting.antt =====
-- How a conversation is started.
use text.Mathlib.Text.{◌==◌ as str_eq}
use mathlib.Core.Path.{subst}
use recruitment_platform_be.Prelude.{
  ℕ, ◌≡◌, ◌⊎◌, true, none, some, inl, inr, arith, Option-cases, ==_iff,
}
use recruitment_platform_be.Prelude.Action.{ok, Result-cases}
use recruitment_platform_be.Chat.Entity.{Conversation}
use recruitment_platform_be.Chat.Repository.{
  Database, IsDatabase, Started, find_or_create_for_application,
}
use recruitment_platform_be.Chat.Handlers.{
  Ports, World, ApplicationLookupResult, JobLookupResult, create_conversation, opened,
}

module _ {S : Type 0} {db : Database S} (laws : IsDatabase db) (ports : Ports) where
  -- A conversation that is started is about a hired application, and its starter posted the job.
  -- Afterwards it is the conversation of that application; it was there before and nothing changed,
  -- or there was none and it is the new one of the candidate and the recruiter. No event is emitted.
  pub create_conversation_accepted :
      (r a f n : ℕ) (w w' : World S) (c : Conversation)
      → create_conversation db ports r a f n w ≡ (ok c, w')
      → (application : ApplicationLookupResult) × (job : JobLookupResult) × (ports.find_application
            a
          ≡ some application)
        × (str_eq application.status "HIRED" ≡ true)
        × (ports.find_job application.job_id ≡ some job)
        × (job.posted_by_id ≡ r)
        × (db.find_by_application_id application.id w'.store ≡ some c)
        × (w'.events ≡ w.events)
        × (((db.find_by_application_id application.id w.store ≡ some c) × (w' ≡ w))
            ⊎ ((db.find_by_application_id application.id w.store ≡ none)
                × (c ≡ (opened r f n application job).0)))
  unfolding create_conversation find_or_create_for_application
  create_conversation_accepted r a f n w w' c h = elim (Option-cases (ports.find_application a)) [
    | inl missing ↦ ground arith
    | inr (application, known) ↦ elim (Option-cases (ports.find_job application.job_id)) [
      | inl missing ↦ ground arith
      | inr (job, known') ↦
          let (x, members) = opened r f n application job in
          elim (Option-cases (db.find_by_application_id application.id w.store)) [
            | inl none' ↦ elim (Result-cases (db.create_with_members x members w.store).0) [
              | inl (b, made) ↦
                  let put : db.create_with_members x members w.store ≡ (ok b, w'.store) =
                    ground arith in
                  let started =
                    subst (Started db x w.store) put (laws.start_outcome x members w.store) in
                  let new : c ≡ x = ground (arith, started.0) in
                  (
                    application,
                    job,
                    known,
                    ground arith,
                    known',
                    ground arith,
                    ground (
                      arith,
                      started.4 application.id,
                      new,
                      ==_iff application.id application.id,
                    ),
                    ground arith,
                    inr (none', new),
                  )
              | inr (e, failed) ↦ ground (arith, laws.start_outcome x members w.store)
            ]
            | inr (y, there) ↦ (
              application,
              job,
              known,
              ground arith,
              known',
              ground arith,
              ground arith,
              ground arith,
              inl (ground arith, ground arith),
            )
          ]
    ]
  ]
