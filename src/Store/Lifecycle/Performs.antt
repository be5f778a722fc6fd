-- ===== src/Store/Lifecycle/Performs.antt =====
-- What a client of the store does to it, as a sequence of operations of a kind.
use director_orson_callan_kr.Base.{
  ℕ, Bytes, ◌≡◌, refl, sym, ap, ◌∙◌, Bool, true, false, List, [], ◌∷◌, ◌++◌, arith, All,
}
use director_orson_callan_kr.Model.{Time}
use director_orson_callan_kr.Sql.{Conn, exec}
use director_orson_callan_kr.Store.Schema.{Db, Library}
use director_orson_callan_kr.Store.Queue.{seen_recently, pending_count}
use director_orson_callan_kr.Store.Records.{get_record, recent_records, spend_for_day}
use director_orson_callan_kr.Store.Outbox.{list_outbox, outbox_depth}
use director_orson_callan_kr.Store.Lifecycle.Defs.{
  Op, enqueue_op, reset_op, read_op, apply, apply_all,
}

-- The operations that make no row wait.
unfoldable pub is_quiet : Op → Bool
is_quiet (enqueue_op now ev) = false
is_quiet reset_op = false
is_quiet _ = true

-- `c'` is `c` behind operations of a kind, in some order, whatever statements of them fail.
abbrev pub Performs : Library → (Op → Bool) → Conn Db → Conn Db → Type 0
Performs lib p c c' = (ops : List Op) × (All (λ op. p op ≡ true) ops) × (c' ≡ apply_all lib ops c)

module _ (lib : Library) (p : Op → Bool) where
  apply_all-append :
      (xs ys : List Op) (c : Conn Db)
      → apply_all lib (xs ++ ys) c ≡ apply_all lib ys (apply_all lib xs c)
  unfolding apply_all
  apply_all-append [] ys c = refl
  apply_all-append (x ∷ xs) ys c = apply_all-append xs ys (apply lib x c)

  All-append :
      (xs ys : List Op)
      → All (λ op. p op ≡ true) xs
      → All (λ op. p op ≡ true) ys
      → All (λ op. p op ≡ true) (xs ++ ys)
  All-append [] ys h k = k
  All-append (x ∷ xs) ys h k = (h.0, All-append xs ys h.1 k)

  pub Performs-none : (c : Conn Db) → Performs lib p c c
  unfolding apply_all
  Performs-none c = ([], tt, refl)

  pub Performs-one :
      (op : Op) (c c' : Conn Db) → p op ≡ true → c' ≡ apply lib op c → Performs lib p c c'
  unfolding apply_all
  Performs-one op c c' h e = (op ∷ [], (h, tt), e)

  pub Performs-then :
      (a b c : Conn Db) → Performs lib p a b → Performs lib p b c → Performs lib p a c
  Performs-then a b c (xs, hx, ex) (ys, hy, ey) = (
    xs ++ ys,
    All-append xs ys hx hy,
    ey ∙ ap (apply_all lib ys) ex ∙ sym (apply_all-append xs ys a),
  )

-- Operations of a kind are of any wider kind.
module _ (lib : Library) (p q : Op → Bool) (wider : (op : Op) → p op ≡ true → q op ≡ true) where
  All-wider : (ops : List Op) → All (λ op. p op ≡ true) ops → All (λ op. q op ≡ true) ops
  All-wider [] h = tt
  All-wider (op ∷ ops) h = (wider op h.0, All-wider ops h.1)

  pub Performs-wider : (c c' : Conn Db) → Performs lib p c c' → Performs lib q c c'
  Performs-wider c c' (ops, h, e) = (ops, All-wider ops h, e)

-- The statements that only read.
module _ (lib : Library) (p : Op → Bool) (reads : p read_op ≡ true) (c : Conn Db) where
  pub Performs-seen_recently :
      (now : Time) (hash : Bytes) (window : ℕ)
      → Performs lib p c (seen_recently lib now hash window c).1
  unfolding seen_recently exec apply
  Performs-seen_recently now hash window = Performs-one lib p read_op c _ reads (ground arith)

  pub Performs-pending_count : Performs lib p c (pending_count c).1
  unfolding pending_count exec apply
  Performs-pending_count = Performs-one lib p read_op c _ reads (ground arith)

  pub Performs-get_record : (id : Bytes) → Performs lib p c (get_record lib id c).1
  unfolding get_record exec apply
  Performs-get_record id = Performs-one lib p read_op c _ reads (ground arith)

  pub Performs-recent_records : (limit : ℕ) → Performs lib p c (recent_records lib limit c).1
  unfolding recent_records exec apply
  Performs-recent_records limit = Performs-one lib p read_op c _ reads (ground arith)

  pub Performs-spend_for_day : (day : Bytes) → Performs lib p c (spend_for_day day c).1
  unfolding spend_for_day exec apply
  Performs-spend_for_day day = Performs-one lib p read_op c _ reads (ground arith)

  pub Performs-list_outbox : (limit : ℕ) → Performs lib p c (list_outbox limit c).1
  unfolding list_outbox exec apply
  Performs-list_outbox limit = Performs-one lib p read_op c _ reads (ground arith)

  pub Performs-outbox_depth : Performs lib p c (outbox_depth c).1
  unfolding outbox_depth exec apply
  Performs-outbox_depth = Performs-one lib p read_op c _ reads (ground arith)
