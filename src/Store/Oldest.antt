-- ===== src/Store/Oldest.antt =====
-- The row that Store.Claim picks.
use director_orson_callan_kr.Base.{
  Bytes, ◌≡◌, refl, true, false, ◌&&◌, Option, none, some, [], ◌∷◌, arith, str_eq, str_eq_iff,
  str_lt, str_lt_irrefl, not-str_lt_trans, str_lt_asymm, Bool-cases, inl, inr, All,
}
use director_orson_callan_kr.Sql.Table.{Table, find}
use director_orson_callan_kr.Sql.Keys.{IsKeyed}
use director_orson_callan_kr.Store.Schema.{QueueRow, is_pending}
use director_orson_callan_kr.Store.Queue.{older, oldest_pending}

-- A row that is not pending, or was not enqueued before `row`.
abbrev pub NotBefore : QueueRow → Bytes × QueueRow → Type 0
NotBefore row r = (is_pending (r.1).state && str_lt (r.1).enqueued_at row.enqueued_at) ≡ false

NotBefore-mono :
    (a b : QueueRow) (t : Table QueueRow)
    → str_lt a.enqueued_at b.enqueued_at ≡ false
    → All (NotBefore a) t
    → All (NotBefore b) t
NotBefore-mono a b [] h n = tt
NotBefore-mono a b (r ∷ t) h n = (
  ground (arith, n.0, not-str_lt_trans (r.1).enqueued_at a.enqueued_at b.enqueued_at),
  NotBefore-mono a b t h n.1,
)

-- No row is pending.
abbrev pub NonePending : Table QueueRow → Type 0
NonePending = All (λ (r : Bytes × QueueRow). is_pending (r.1).state ≡ false)

NonePending-NotBefore : (a : QueueRow) (t : Table QueueRow) → NonePending t → All (NotBefore a) t
NonePending-NotBefore a [] h = tt
NonePending-NotBefore a (r ∷ t) h = (rw (h.0) refl, NonePending-NotBefore a t h.1)

-- What is picked of a table: nothing if no row is pending, and else a pending row such that no
-- pending row was enqueued before it.
abbrev pub Picked : Table QueueRow → Option (Bytes × QueueRow) → Type 0
Picked t none = NonePending t
Picked t (some r) = (is_pending (r.1).state ≡ true) × All (NotBefore r.1) t

Picked-skip :
    (r : Bytes × QueueRow) (t : Table QueueRow) (best : Option (Bytes × QueueRow))
    → is_pending (r.1).state ≡ false
    → Picked t best
    → Picked (r ∷ t) best
Picked-skip r t none h p = (h, p)
Picked-skip r t (some b) h p = (p.0, (rw h refl, p.1))

Picked-older :
    (r : Bytes × QueueRow) (t : Table QueueRow) (best : Option (Bytes × QueueRow))
    → is_pending (r.1).state ≡ true
    → Picked t best
    → Picked (r ∷ t) (older r best)
unfolding older
Picked-older r t none h p =
    (h, (ground (arith, str_lt_irrefl (r.1).enqueued_at), NonePending-NotBefore r.1 t p))
Picked-older r t (some b) h p = elim (Bool-cases (str_lt (b.1).enqueued_at (r.1).enqueued_at)) [
  | inl e ↦ rw e (p.0, (ground (arith, str_lt_asymm (b.1).enqueued_at (r.1).enqueued_at e), p.1))
  | inr e ↦
      rw e (h, (ground (arith, str_lt_irrefl (r.1).enqueued_at), NotBefore-mono b.1 r.1 t e p.1))
]

pub oldest_pending-Picked : (t : Table QueueRow) → Picked t (oldest_pending t)
unfolding oldest_pending
oldest_pending-Picked [] = tt
oldest_pending-Picked (r ∷ t) = elim (Bool-cases (is_pending (r.1).state)) [
  | inl e ↦ rw e (Picked-older r t (oldest_pending t) e (oldest_pending-Picked t))
  | inr e ↦ rw e (Picked-skip r t (oldest_pending t) e (oldest_pending-Picked t))
]

find-none-oldest_pending :
    (k : Bytes) (t : Table QueueRow) (r : Bytes × QueueRow)
    → find k t ≡ none
    → oldest_pending t ≡ some r
    → str_eq r.0 k ≡ false
unfolding find oldest_pending
find-none-oldest_pending k [] r h p = cc
find-none-oldest_pending k (s ∷ t) r h p = ground (arith, find-none-oldest_pending k t r)

-- The picked row is the one that its key selects.
pub find-oldest_pending :
    (t : Table QueueRow) (r : Bytes × QueueRow)
    → IsKeyed t
    → oldest_pending t ≡ some r
    → find r.0 t ≡ some r.1
unfolding find oldest_pending
find-oldest_pending [] r h p = cc
find-oldest_pending (s ∷ t) r h p = ground (
  arith,
  find-oldest_pending t r h.1,
  find-none-oldest_pending s.0 t r h.0,
  str_eq_iff s.0 r.0,
  str_eq_iff r.0 s.0,
)
