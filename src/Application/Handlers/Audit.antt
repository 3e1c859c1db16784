-- ===== src/Application/Handlers/Audit.antt =====
-- The audit log: whatever requests are served, the history of an application leads from its first
-- stage to its status.
use Prim.Native.String.{String}
use recruitment_platform_be.Prelude.{
  ℕ, Option, some, List, ◌∷◌, [], ◌++◌, ◌≡◌, inl, inr, arith, Bool-cases, ◌==◌, ==_iff, refl, ap,
}
use recruitment_platform_be.Prelude.Action.{ok}
use recruitment_platform_be.Application.Status.{ApplicationStatus, applied}
use recruitment_platform_be.Application.Status.Pipeline.{◌↝◌}
use recruitment_platform_be.Application.Entity.{JobApplication}
use recruitment_platform_be.Application.Repository.{
  ApplicationRepository, IsRepository, StatusChange, Inserted,
}
use recruitment_platform_be.Application.Handlers.Moving.{IsMoved, change}

-- A list of changes that leads from one status to another along the pipeline.
abbrev pub IsChain : ApplicationStatus → List StatusChange → ApplicationStatus → Type 0
IsChain from [] to = from ≡ to
IsChain from (c ∷ cs) to =
    (c.from_status ≡ some from) × (from ↝ c.to_status) × IsChain c.to_status cs to

IsChain-append :
    (from : ApplicationStatus) (cs : List StatusChange) (mid : ApplicationStatus) (c : StatusChange)
    → IsChain from cs mid
    → c.from_status ≡ some mid
    → mid ↝ c.to_status
    → IsChain from (cs ++ c ∷ []) c.to_status
IsChain-append from [] mid c h e m = (rw h e, rw h m, refl)
IsChain-append from (d ∷ cs) mid c h e m = (h.0, h.1, IsChain-append d.to_status cs mid c h.2 e m)

module _ {S : Type 0} (repository : ApplicationRepository S) where
  abbrev pub IsAudited : S → Type 0
  IsAudited s =
      (k : ℕ) (a : JobApplication)
      → repository.find_by_id k s ≡ some a
      → IsChain applied (repository.find_history k s) a.status

module _ {S : Type 0} {repository : ApplicationRepository S} (laws : IsRepository repository) where
  pub Inserted-IsAudited :
      (a b : JobApplication) (s s' : S)
      → Inserted repository a s (ok b, s')
      → a.status ≡ applied
      → IsAudited repository s
      → IsAudited repository s'
  Inserted-IsAudited a b s s' ins first h k c found = elim (Bool-cases (k == b.id)) [
    | inl same ↦
        let k_eq : k ≡ b.id = (==_iff k b.id).0 same in
        let none_yet : repository.find_history k s' ≡ [] = ground (arith, ins.6 k, ins.2, k_eq) in
        let stage : applied ≡ c.status = ground (arith, ins.4 k, ins.0) in rw none_yet stage
    | inr other ↦ rw (ins.6 k) (h k c (ground (arith, ins.4 k, other)))
  ]

  pub IsMoved-IsAudited :
      (k user_id : ℕ) (note : Option String) (before after : JobApplication) (s s' : S)
      → IsMoved laws k user_id note before after s s'
      → IsAudited repository s
      → IsAudited repository s'
  IsMoved-IsAudited k user_id note before after s s' m h j c found =
      let entry = change user_id note before after in
      let k_eq : before.id ≡ k = laws.found_id k before s m.found in
      let id_eq : after.id ≡ before.id = ap (λ (a : JobApplication). a.id) m.only_status in
      elim (Bool-cases (j == after.id)) [
        | inl same ↦
            let j_eq : j ≡ after.id = (==_iff j after.id).0 same in
            let longer : repository.find_history j s' ≡ repository.find_history k s ++ entry ∷ [] =
              ground (arith, m.written.2 j, j_eq, k_eq, id_eq) in
            let stage : c.status ≡ after.status = ground (arith, m.written.1 j) in
            rw (longer, stage)
              (IsChain-append applied _ before.status entry (h k before m.found) refl m.along)
        | inr other ↦
            let unchanged : repository.find_history j s' ≡ repository.find_history j s =
              ground (arith, m.written.2 j) in
            rw unchanged (h j c (ground (arith, m.written.1 j)))
      ]
