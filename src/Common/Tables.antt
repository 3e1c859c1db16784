-- ===== src/Common/Tables.antt =====
-- The database of a module as tables: what `PrismaService` promises the repositories. `T` holds the
-- rows, and `S` is the state of the database, of which the rows are what a query reads. A statement
-- or a `$transaction` is a change of the rows, which a constraint may refuse.
use Prim.Native.String.{String}
use recruitment_platform_be.Prelude.{◌≡◌, ◌⊎◌, inl, inr, arith}
use recruitment_platform_be.Prelude.Action.{Result, ok, err, Result-cases}

-- A constraint is named as in the migrations; any other failure, such as a lost connection.
pub data CommitError : Type 0 where
  violates : (constraint : String) → CommitError
  failed : CommitError

abbrev pub Change : Type 0 → Type 0
Change T = T → Result CommitError T

pub record Database (S T : Type 0) : Type 0 where
  pub tables : S → T
  pub commit : Change T → S → Result CommitError (Unit {0}) × S

module _ {S T : Type 0} (db : Database S T) where
  abbrev pub Committed : Change T → S → Type 0
  Committed change s =
      ((db.commit change s).0 ≡ ok tt)
      × (change (db.tables s) ≡ ok (db.tables (db.commit change s).1))

  abbrev pub RolledBack : Change T → S → Type 0
  RolledBack change s =
      (e : CommitError) × ((db.commit change s).0 ≡ err e)
      × (db.tables (db.commit change s).1 ≡ db.tables s)

  -- A change takes effect as a whole or not at all, and a constraint is blamed only if the rows
  -- violate it.
  pub record IsDatabase : Type 0 where
    pub commit_outcome : (change : Change T) (s : S) → Committed change s ⊎ RolledBack change s
    pub commit_violates :
        (change : Change T) (s : S) (constraint : String)
        → (db.commit change s).0 ≡ err (violates constraint)
        → change (db.tables s) ≡ err (violates constraint)

module _ {T : Type 0} where
  -- A database that never fails by itself.
  abbrev commit_rows : Change T → T → Result CommitError (Unit {0}) × T
  commit_rows change t = elim (change t) [ ok t' ↦ (ok tt, t') | err e ↦ (err e, t) ]

  abbrev pub memory : Database T T
  memory = record { tables = λ t. t; commit = commit_rows }

  pub memory-IsDatabase : IsDatabase memory
  memory-IsDatabase = record {
    commit_outcome = λ change t. elim (Result-cases (change t)) [
      | inl (t', e) ↦ inl (ground arith, ground arith)
      | inr (x, e) ↦ inr (x, ground arith, ground arith)
    ];
    commit_violates = λ change t c h. elim (Result-cases (change t)) [
      | inl (t', e) ↦ ground arith
      | inr (x, e) ↦ ground arith
    ];
  }
