-- ===== src/Sql/Defs.antt =====
-- The use that the stores make of package database/sql: statements that may fail, transactions
-- with a deferred rollback, and tables with a primary key.
-- A statement is atomic. Which statements fail is an input: `faults` gives, for each statement in
-- turn, `some message` if the driver fails it and `none` if it is carried out; past its end, none
-- fails. The connection pool has one connection, so the calls do not interleave.
use director_orson_callan_kr.Base.{Bytes, Option, none, some, List, [], ◌∷◌, Result, Exec, ok, err}

pub record Conn {ℓ} (D : Type ℓ) : Type ℓ where
  pub db : D
  pub faults : List (Option Bytes)

abbrev pub Sql {ℓ} : Type ℓ → Type ℓ → Type ℓ
Sql D A = Exec (Conn D) A

-- What the driver answers to the next statement, and the answers after it.
abbrev pub next_fault : List (Option Bytes) → Option Bytes
next_fault [] = none
next_fault (f ∷ fs) = f

abbrev pub later_faults : List (Option Bytes) → List (Option Bytes)
later_faults [] = []
later_faults (f ∷ fs) = fs

-- What a transaction's function does before it returns: `tx.Commit()`, or nothing, which leaves
-- the deferred `tx.Rollback()` to undo the statements.
pub data Exit {ℓ} (A : Type ℓ) : Type ℓ where
  commit : A → Exit A
  leave : A → Exit A

module _ {ℓ} {D A : Type ℓ} where
  -- One statement that reads or writes the database.
  unfoldable pub exec : (D → A × D) → Sql D A
  exec f c = elim (next_fault c.faults) [
    | some e ↦ (err e, record c { faults = later_faults c.faults })
    | none ↦ (ok (f c.db).0, record { db = (f c.db).1; faults = later_faults c.faults })
  ]

module _ {ℓ} {D A : Type ℓ} where
  -- The end of a transaction that began at the database `old`.
  finish : D → Result (Exit A) → Sql D A
  finish old (err e) c = (err e, record c { db = old })
  finish old (ok (leave a)) c = (ok a, record c { db = old })
  finish old (ok (commit a)) c = elim (next_fault c.faults) [
    | some e ↦ (err e, record { db = old; faults = later_faults c.faults })
    | none ↦ (ok a, record c { faults = later_faults c.faults })
  ]

  -- `tx, err := db.Begin(); defer tx.Rollback(); …`
  unfoldable pub transaction : Sql D (Exit A) → Sql D A
  unfolding finish
  transaction body c = elim (next_fault c.faults) [
    | some e ↦ (err e, record c { faults = later_faults c.faults })
    | none ↦ (let (r, c') = body (record c { faults = later_faults c.faults }) in finish c.db r c')
  ]
