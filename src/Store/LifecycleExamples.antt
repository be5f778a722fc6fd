-- ===== src/Store/LifecycleExamples.antt =====
-- Tests of sequences of the store's operations, and their theorems at concrete inputs.
use director_orson_callan_kr.Base.{◌≡◌, refl, false, [], ◌∷◌, List, utf8, str_eq, str_lt}
use director_orson_callan_kr.Sql.{exec, transaction}
use director_orson_callan_kr.Sql.Table.{upsert, update, remove}
use director_orson_callan_kr.Store.Records.{prune_older_than}
use director_orson_callan_kr.Store.Queue.{complete, enqueue, claim, claim_blob, oldest_pending}
use director_orson_callan_kr.Store.Lifecycle.Defs.{
  Op, prune_op, enqueue_op, complete_op, apply, apply_all,
}
use director_orson_callan_kr.Store.Lifecycle.Tracked.{IsTracked, apply_all-IsTracked}
use director_orson_callan_kr.Store.Lifecycle.Exclusive.{Claims, reopens_any, claimed_once}
use director_orson_callan_kr.Store.Examples.{
  plain, fresh, two_queued, first, change, empty-IsTracked,
}

two_queued-IsTracked : IsTracked two_queued.db
unfolding apply_all apply
two_queued-IsTracked =
    apply_all-IsTracked plain (enqueue_op 7 first ∷ enqueue_op 3 (change (utf8 "b")) ∷ []) fresh
      empty-IsTracked

-- Between the two claims, the first worker finishes.
abbrev between : List Op
between = complete_op 10 (utf8 "b") ∷ prune_op 4 ∷ []

Claims-first : Claims plain 9 two_queued (utf8 "b") (utf8 "b")
unfolding claim_blob enqueue transaction exec oldest_pending upsert str_eq update str_lt
Claims-first = record { row = _; oldest = refl; committed = refl }

Claims-second :
    Claims plain 11 (apply_all plain between (claim plain 9 two_queued).1) (utf8 "a") (utf8 "a")
unfolding claim claim_blob enqueue transaction exec oldest_pending upsert str_eq update str_lt
    apply_all prune_older_than complete remove
Claims-second = record { row = _; oldest = refl; committed = refl }

between_reopens : reopens_any (utf8 "b") between ≡ false
unfolding reopens_any str_eq
between_reopens = refl

claimed_once_example : str_eq (utf8 "a") (utf8 "b") ≡ false
claimed_once_example =
    claimed_once plain 9 11 two_queued (utf8 "b") (utf8 "a") (utf8 "b") (utf8 "a") between
      two_queued-IsTracked Claims-first between_reopens Claims-second
