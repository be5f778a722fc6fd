-- ===== src/Store/Examples.antt =====
-- Tests of the store, and its theorems at concrete inputs.
use director_orson_callan_kr.Base.{
  ◌+◌, Bytes, ◌≡◌, refl, true, false, none, some, List, [], ◌∷◌, ok, err, utf8, str_eq, str_lt, ltb,
  if◌then◌else◌, Ends,
}
use director_orson_callan_kr.Model.{ChangeEvent}
use director_orson_callan_kr.Sql.{Conn, exec, transaction}
use director_orson_callan_kr.Sql.Table.{find, upsert, update}
use director_orson_callan_kr.Store.Schema.{Db, Library, empty_db}
use director_orson_callan_kr.Store.Queue.{
  enqueue, claim, claim_blob, reset_inflight, seen_recently, oldest_pending,
}
use director_orson_callan_kr.Store.Stored.{IsCause, Held, enqueue-Held}
use director_orson_callan_kr.Store.Enqueue.{seen_recently-enqueue}
use director_orson_callan_kr.Store.Claim.{Claimed, claim_oldest}
use director_orson_callan_kr.Store.RoundTrip.{claim-enqueue}
use director_orson_callan_kr.Store.Lifecycle.Defs.{
  Op, claim_op, prune_op, enqueue_op, fail_op, finishes_any, apply_all,
}
use director_orson_callan_kr.Store.Lifecycle.Tracked.{IsTracked, apply_all-IsTracked}
use director_orson_callan_kr.Store.Lifecycle.Kept.{is_waiting, restart, no_work_lost}

abbrev pub change : Bytes → ChangeEvent
change id = record {
  schema_version = utf8 "1.0";
  change_id = id;
  trace_id = utf8 "t";
  created_at = 5;
  developer = record {
    user_slug = utf8 "alice";
    git_name = [];
    git_email = [];
    machine = [];
    os_user = [];
  };
  repo = record {
    name = utf8 "svc";
    root_hint = utf8 "svc";
    remote = [];
    branch = utf8 "main";
    head_sha = [];
    shadow_ref = [];
    shadow_sha = [];
    local_path = [];
  };
  summary = record {
    files_changed = 1;
    lines_added = 2;
    lines_removed = 0;
    languages = [];
    redacted_paths = [];
    truncated = false;
  };
  diff = record { format = utf8 "unified"; context_lines = 3; hunks = [] };
  routing_hints = record { force_stage = []; budget_tier = utf8 "normal" };
  content_hash = utf8 "h";
}

-- Times as one number, and an event as its id.
abbrev pub plain : Library
plain = record {
  format_time = λ t. t ∷ [];
  parse_time = λ s. elim s [ [] ↦ none | t ∷ _ ↦ some t ];
  marshal_event = λ ev. ok ev.change_id;
  unmarshal_event = λ s. ok (change s);
  event_or_zero = change;
  marshal_triage = λ tr. tr.reason;
  unmarshal_triage = λ s. none;
  marshal_review = λ rv. rv.summary;
  unmarshal_review = λ s. none;
  add = λ a b. a + b;
}

abbrev pub fresh : Conn Db
fresh = record { db = empty_db; faults = [] }

-- The third statement of the next call fails.
abbrev flaky : Conn Db
flaky = record { db = empty_db; faults = none ∷ none ∷ some (utf8 "disk full") ∷ [] }

abbrev pub first : ChangeEvent
first = change (utf8 "a")

flaky-enqueue : (enqueue plain 7 first flaky).0 ≡ err (utf8 "disk full")
unfolding enqueue transaction exec
flaky-enqueue = refl

-- The older change is claimed first, although it stands second.
abbrev pub two_queued : Conn Db
two_queued = (enqueue plain 3 (change (utf8 "b")) (enqueue plain 7 first fresh).1).1

claims_oldest : (claim plain 9 two_queued).0 ≡ ok (some (change (utf8 "b")))
unfolding claim enqueue transaction exec oldest_pending upsert str_eq update str_lt
claims_oldest = refl

enqueue_succeeds_here : (enqueue plain 7 first fresh).0 ≡ ok tt
unfolding enqueue transaction exec
enqueue_succeeds_here = refl

abbrev busy : List Op
busy =
    claim_op 8
    ∷ fail_op 9 (utf8 "b") (utf8 "no provider")
    ∷ enqueue_op 10 (change (utf8 "b"))
    ∷ prune_op 20
    ∷ []

busy_finishes : finishes_any (utf8 "a") busy ≡ false
unfolding finishes_any str_eq
busy_finishes = refl

no_work_lost_example :
    is_waiting (
      find first.change_id
        (reset_inflight
          (restart (apply_all plain busy (enqueue plain 7 first fresh).1))).1.db.queue)
    ≡ true
no_work_lost_example = no_work_lost plain 7 first busy fresh enqueue_succeeds_here busy_finishes

enqueue-Held_example :
    Ends
      (enqueue plain 7 first)
      flaky
      (λ e c'. (c'.db ≡ flaky.db) × IsCause plain 7 first flaky e)
      (Held plain 7 first flaky)
enqueue-Held_example = enqueue-Held plain 7 first flaky

seen_recently-enqueue_example :
    (seen_recently plain 12 (utf8 "h") 10 (enqueue plain 7 first fresh).1).0 ≡ (
      if str_eq (utf8 "h") (utf8 "h")
      then ok (ltb 12 (7 + 10))
      else (seen_recently plain 12 (utf8 "h") 10 fresh).0)
seen_recently-enqueue_example =
    seen_recently-enqueue plain 7 12 first 10 fresh refl refl refl (utf8 "h")

claim_oldest_example :
    Ends
      (claim_blob plain 9)
      two_queued
      (λ e c'. c'.db ≡ two_queued.db)
      (Claimed plain 9 two_queued)
claim_oldest_example = claim_oldest plain 9 two_queued

claim-enqueue_example : (claim plain 9 (enqueue plain 7 first fresh).1).0 ≡ ok (some first)
claim-enqueue_example = claim-enqueue plain 7 9 first fresh refl refl refl tt

pub empty-IsTracked : IsTracked fresh.db
unfolding find
empty-IsTracked = record { keyed = tt; recorded = λ id. refl }

apply_all-IsTracked_example : IsTracked (apply_all plain busy fresh).db
apply_all-IsTracked_example = apply_all-IsTracked plain busy fresh empty-IsTracked
