-- ===== src/Sql/Laws.antt =====
-- What calls and transactions promise whatever statements fail.
use director_orson_callan_kr.Base.{
  ℕ, zero, suc, List, Option, some, Bytes, ◌≡◌, err, Ends, Ends-intro, arith,
}
use director_orson_callan_kr.Sql.Defs.{Conn, next_fault, later_faults, Sql, Exit, exec, transaction}

-- What the driver answers behind the next `n` statements.
abbrev pub skip : ℕ → List (Option Bytes) → List (Option Bytes)
skip zero fs = fs
skip (suc n) fs = skip n (later_faults fs)

-- The driver fails some statement with this error.
abbrev pub IsFault : List (Option Bytes) → Bytes → Type 0
IsFault fs e = (n : ℕ) × (next_fault (skip n fs) ≡ some e)

module _ {ℓ} {D A : Type ℓ} where
  -- A transaction that returns an error has changed nothing.
  pub transaction-err :
      (body : Sql D (Exit A)) (c : Conn D) (e : Bytes)
      → (transaction body c).0 ≡ err e
      → (transaction body c).1.db ≡ c.db
  unfolding transaction
  transaction-err body c e h = ground arith

  -- A statement ends in an error and changes nothing, or is carried out.
  pub Ends-exec :
      (f : D → A × D) (c : Conn D)
      → Ends (exec f) c (λ e c'. c'.db ≡ c.db) (λ a c'. (a ≡ (f c.db).0) × (c'.db ≡ (f c.db).1))
  unfolding exec
  Ends-exec f c =
      Ends-intro (exec f) c (λ e c'. c'.db ≡ c.db) (λ a c'. (a ≡ (f c.db).0) × (c'.db ≡ (f c.db).1))
        (λ e h. ground arith) (λ a h. ground arith)
