-- ===== src/Hub/Limits.antt =====
-- Logs from which entries are removed, and the fault of a query in Append.
use director_orson_callan_kr.Base.{
  ◌+◌, Bytes, ◌≡◌, ◌≢◌, refl, sym, ap, ◌∙◌, true, none, some, ok, List, [], ◌∷◌, ◌++◌, arith,
  length,
}
use director_orson_callan_kr.Model.{Time}
use director_orson_callan_kr.Audit.{Report, genesis_hash, chain_hash}
use director_orson_callan_kr.Sql.{exec, transaction}
use director_orson_callan_kr.Hub.Log.{
  AuditRow, HubDb, HubLibrary, find_report, last_hash, row_for, append, verify_rows,
}
use director_orson_callan_kr.Hub.Chain.{IsChained, sound, verify_rows-sound, verify_rows-IsChained}

IsChained-prefix :
    (digest : Bytes → Bytes) (xs ys : List AuditRow) (prev : Bytes)
    → IsChained digest prev (xs ++ ys)
    → IsChained digest prev xs
IsChained-prefix digest [] ys prev h = tt
IsChained-prefix digest (x ∷ xs) ys prev h =
    (h.0, h.1, IsChained-prefix digest xs ys x.entry_hash h.2)

IsChained-prev :
    (digest : Bytes → Bytes) (xs ys : List AuditRow) (row : AuditRow) (prev : Bytes)
    → IsChained digest prev (xs ++ row ∷ ys)
    → row.prev_hash ≡ last_hash prev xs
unfolding last_hash
IsChained-prev digest [] ys row prev h = h.0
IsChained-prev digest (x ∷ xs) ys row prev h = IsChained-prev digest xs ys row x.entry_hash h.2

IsChained-next :
    (digest : Bytes → Bytes) (xs ys : List AuditRow) (row next : AuditRow) (prev : Bytes)
    → IsChained digest prev (xs ++ row ∷ next ∷ ys)
    → next.prev_hash ≡ row.entry_hash
IsChained-next digest [] ys row next prev h = (h.2).0
IsChained-next digest (x ∷ xs) ys row next prev h =
    IsChained-next digest xs ys row next x.entry_hash h.2

-- Cutting any number of entries off the end of a log that verifies goes undetected: what is left
-- verifies too, with its own count.
pub verify-truncated :
    (digest : Bytes → Bytes) (xs ys : List AuditRow)
    → (verify_rows digest genesis_hash 0 (xs ++ ys)).ok_chain ≡ true
    → verify_rows digest genesis_hash 0 xs ≡ sound digest (length xs)
verify-truncated digest xs ys h =
    verify_rows-sound digest xs genesis_hash 0 (
      IsChained-prefix digest xs ys genesis_hash
        (verify_rows-IsChained digest (xs ++ ys) genesis_hash 0 h))
    ∙ ap (sound digest) (omega arith)

-- Taking an entry out of the middle of a log that verifies is detected, unless the hash of the
-- entry is the one before it: what is left does not verify.
verify-removed :
    (digest : Bytes → Bytes) (xs ys : List AuditRow) (row next : AuditRow)
    → (verify_rows digest genesis_hash 0 (xs ++ row ∷ next ∷ ys)).ok_chain ≡ true
    → row.entry_hash ≢ last_hash genesis_hash xs
    → (verify_rows digest genesis_hash 0 (xs ++ next ∷ ys)).ok_chain ≢ true
verify-removed digest xs ys row next h ne k = ne (
    sym (
      IsChained-next digest xs ys row next genesis_hash
        (verify_rows-IsChained digest (xs ++ row ∷ next ∷ ys) genesis_hash 0 h))
    ∙ IsChained-prev digest xs ys next genesis_hash
        (verify_rows-IsChained digest (xs ++ next ∷ ys) genesis_hash 0 k))

unlinked :
    (lib : HubLibrary) (now : Time) (r : Report) (d : HubDb) (e : Bytes)
    → find_report r.report_id d.audit ≡ none
    → (append lib now r (record { db = d; faults = none ∷ none ∷ some e ∷ [] })).1.db.audit
      ≡ d.audit ++ row_for lib now r genesis_hash (d.last_seq + 1) ∷ []
unfolding append transaction exec row_for
unlinked lib now r d e new = ground arith

unlinked_answer :
    (lib : HubLibrary) (now : Time) (r : Report) (d : HubDb) (e : Bytes)
    → find_report r.report_id d.audit ≡ none
    → (append lib now r (record { db = d; faults = none ∷ none ∷ some e ∷ [] })).0
      ≡ ok (d.last_seq + 1, chain_hash lib.digest genesis_hash (lib.marshal_report r))
unfolding append transaction exec row_for
unlinked_answer lib now r d e new = ground arith

-- Where the query for the last hash fails and nothing else does, a new report is chained to the
-- genesis hash: if the log was not empty and its last hash is not the genesis hash, Append returns the
-- number and the hash of the new entry, and leaves a log that does not verify.
pub append_breaks_chain :
    (lib : HubLibrary) (now : Time) (r : Report) (d : HubDb) (e : Bytes)
    → find_report r.report_id d.audit ≡ none
    → last_hash genesis_hash d.audit ≢ genesis_hash
    → ((append lib now r (record { db = d; faults = none ∷ none ∷ some e ∷ [] })).0
        ≡ ok (d.last_seq + 1, chain_hash lib.digest genesis_hash (lib.marshal_report r)))
      × ((verify_rows lib.digest genesis_hash 0
            (append lib now r
              (record { db = d; faults = none ∷ none ∷ some e ∷ [] })).1.db.audit).ok_chain
          ≢ true)
append_breaks_chain lib now r d e new ne = (
  unlinked_answer lib now r d e new,
  λ k.
      let row = row_for lib now r genesis_hash (d.last_seq + 1) in
      ne (
        sym (
          IsChained-prev lib.digest d.audit [] row genesis_hash (
            verify_rows-IsChained lib.digest (d.audit ++ row ∷ []) genesis_hash 0
              (rw (unlinked lib now r d e new) at k)))
        ∙ unfold row_for in refl),
)
