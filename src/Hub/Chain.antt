-- ===== src/Hub/Chain.antt =====
-- What Append and Verify promise of the hash chain.
use director_orson_callan_kr.Base.{
  ℕ, ◌+◌, Bytes, ◌≡◌, ap, ◌∙◌, true, List, [], ◌∷◌, ◌++◌, arith, length, str_eq_iff,
}
use director_orson_callan_kr.Audit.{chain_hash}
use director_orson_callan_kr.Hub.Log.{AuditRow, VerifyResult, no_detail, last_hash, verify_rows}

module _ (digest : Bytes → Bytes) where
  -- Each row carries the hash of the row before it, and the hash of that with its own payload.
  abbrev pub IsChained : Bytes → List AuditRow → Type 0
  IsChained prev [] = Unit
  IsChained prev (row ∷ rows) =
      (row.prev_hash ≡ prev)
      × (row.entry_hash ≡ chain_hash digest prev row.payload)
      × IsChained row.entry_hash rows

  abbrev pub sound : ℕ → VerifyResult
  sound n = record { ok_chain = true; count = n; broken_seq = 0; detail = no_detail }

  pub verify_rows-sound :
      (rows : List AuditRow) (prev : Bytes) (n : ℕ)
      → IsChained prev rows
      → verify_rows digest prev n rows ≡ sound (n + length rows)
  unfolding verify_rows
  verify_rows-sound [] prev n h = ground arith
  verify_rows-sound (row ∷ rows) prev n h = ground (
    arith,
    h.0,
    h.1,
    str_eq_iff row.prev_hash prev,
    str_eq_iff (chain_hash digest prev row.payload) row.entry_hash,
    verify_rows-sound rows row.entry_hash (n + 1) h.2,
  )

  pub verify_rows-IsChained :
      (rows : List AuditRow) (prev : Bytes) (n : ℕ)
      → (verify_rows digest prev n rows).ok_chain ≡ true
      → IsChained prev rows
  unfolding verify_rows
  verify_rows-IsChained [] prev n h = tt
  verify_rows-IsChained (row ∷ rows) prev n h = (
    ground (arith, str_eq_iff row.prev_hash prev),
    ground (arith, str_eq_iff (chain_hash digest prev row.payload) row.entry_hash),
    verify_rows-IsChained rows row.entry_hash (n + 1) (ground arith),
  )

  pub IsChained-append :
      (rows : List AuditRow) (prev : Bytes) (row : AuditRow)
      → IsChained prev rows
      → row.prev_hash ≡ last_hash prev rows
      → row.entry_hash ≡ chain_hash digest row.prev_hash row.payload
      → IsChained prev (rows ++ row ∷ [])
  unfolding last_hash
  IsChained-append [] prev row h p q = (p, q ∙ ap (λ b. chain_hash digest b row.payload) p, tt)
  IsChained-append (r ∷ rows) prev row h p q =
      (h.0, h.1, IsChained-append rows r.entry_hash row h.2 p q)
