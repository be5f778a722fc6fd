-- ===== src/Agent/Listed.antt =====
-- The items of a batch are rows of the outbox.
use director_orson_callan_kr.Base.{
  ℕ, zero, suc, ◌≡◌, Bytes, Bool, true, ◌&&◌, inl, inr, any, All, List, [], ◌∷◌, map, take,
  Bool-cases, str_eq, str_eq_refl, str_lt, arith,
}
use director_orson_callan_kr.Sql.Table.{Table}
use director_orson_callan_kr.Store.Schema.{OutboxRow}
use director_orson_callan_kr.Store.Outbox.{OutboxItem, to_item, oldest_first, insert_asc}

-- A row of the outbox has this id and this payload.
abbrev pub is_row : Bytes → Bytes → Table OutboxRow → Bool
is_row id payload t = any (λ r. str_eq (r.0) id && str_eq ((r.1).payload) payload) t

-- The rows that are listed are rows of the table.
module _ (t : Table OutboxRow) where
  abbrev pub IsListed : Bytes × OutboxRow → Type 0
  IsListed r = is_row (r.0) ((r.1).payload) t ≡ true

  insert_asc-IsListed :
      (r : Bytes × OutboxRow) (rows : List (Bytes × OutboxRow))
      → IsListed r
      → All IsListed rows
      → All IsListed (insert_asc r rows)
  unfolding insert_asc
  insert_asc-IsListed r [] h k = (h, tt)
  insert_asc-IsListed r (s ∷ rows) h k =
      elim (Bool-cases (str_lt (s.1).created_at (r.1).created_at)) [
        | inl e ↦ rw e (k.0, insert_asc-IsListed r rows h k.1)
        | inr e ↦ rw e (h, k)
      ]

  pub oldest_first-IsListed :
      (rows : List (Bytes × OutboxRow)) → All IsListed rows → All IsListed (oldest_first rows)
  unfolding oldest_first
  oldest_first-IsListed [] h = tt
  oldest_first-IsListed (r ∷ rows) h =
      insert_asc-IsListed r (oldest_first rows) h.0 (oldest_first-IsListed rows h.1)

  -- The same for an item.
  abbrev pub IsItem : OutboxItem → Type 0
  IsItem it = is_row it.report_id it.payload t ≡ true

  pub items-IsItem :
      (n : ℕ) (rows : List (Bytes × OutboxRow))
      → All IsListed rows
      → All IsItem (map to_item (take n rows))
  items-IsItem zero rows h = tt
  items-IsItem (suc n) [] h = tt
  items-IsItem (suc n) (r ∷ rows) h = (h.0, items-IsItem n rows h.1)

IsListed-more :
    (r : Bytes × OutboxRow) (t rows : Table OutboxRow)
    → All (IsListed t) rows
    → All (IsListed (r ∷ t)) rows
IsListed-more r t [] h = tt
IsListed-more r t (s ∷ rows) h = (ground (arith, h.0), IsListed-more r t rows h.1)

pub IsListed-self : (t : Table OutboxRow) → All (IsListed t) t
IsListed-self [] = tt
IsListed-self (r ∷ t) = (
  ground (arith, str_eq_refl (r.0), str_eq_refl ((r.1).payload)),
  IsListed-more r t t (IsListed-self t),
)
