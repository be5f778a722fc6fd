-- ===== src/Agent/SavedExamples.antt =====
-- The theorem on a saved file at a small daemon.
use director_orson_callan_kr.Base.{
  ℕ, ◌≡◌, refl, Bytes, Bool, true, false, ◌&&◌, none, some, Option, if◌then◌else◌, List, [], ◌∷◌,
  Result, ok, err, utf8, str_eq, ltb, length, any,
}
use director_orson_callan_kr.Model.{ChangeEvent, Time}
use director_orson_callan_kr.Git.Tree.{working_tree_diff}
use director_orson_callan_kr.Redact.{is_denied, new_redactor}
use director_orson_callan_kr.Change.Defs.{build}
use director_orson_callan_kr.Watcher.Discover.{no_dirs}
use director_orson_callan_kr.Watcher.Events.{FileSystem, FileEvent, start}
use director_orson_callan_kr.Watcher.Plane.{saved, new_plane}
use director_orson_callan_kr.Watcher.Plane as Plane
use director_orson_callan_kr.Sql.{exec}
use director_orson_callan_kr.Sql.Table.{find}
use director_orson_callan_kr.Agent.Daemon as Daemon
use director_orson_callan_kr.Watcher.Defs.{is_ignored, repo_root_for, contains}
use director_orson_callan_kr.Debounce.Defs.{trigger, new}
use director_orson_callan_kr.Store.Queue.{seen_recently, reset_inflight}
use director_orson_callan_kr.Store.Lifecycle.Kept.{IsQueued}
use director_orson_callan_kr.Agent.Daemon.{started}
use director_orson_callan_kr.Agent.Wired.{Event, noticed, served, run}
use director_orson_callan_kr.Agent.Saved.{wired, save_ends}
use director_orson_callan_kr.Agent.Queued.{saved-IsQueued}
use director_orson_callan_kr.Agent.Defs.{World, dedup_window, is_paused}
use director_orson_callan_kr.Agent.Samples.{small, idle}

-- One line of m.go was changed.
abbrev answer : List Bytes → Result Bytes
answer [] = err []
answer (a ∷ rest) =
    if str_eq a (utf8 "rev-parse")
    then ok (utf8 "true")
    else if str_eq a (utf8 "diff")
    then ok (utf8 "diff --git a/m.go b/m.go\n@@ -1 +1 @@\n+y")
    else ok []

abbrev edited : World Unit
edited = record small { repository = λ root. record { run = answer; read_file = λ path. none } }

abbrev app_root : Bytes
app_root = utf8 "/w/app"

abbrev is_event : Result (Option ChangeEvent) → Bool
is_event (err e) = false
is_event (ok none) = false
is_event (ok (some ch)) = true

event_in :
    (r : Result (Option ChangeEvent)) → is_event r ≡ true → (ch : ChangeEvent) × (r ≡ ok (some ch))
event_in (err e) h = absurd (cc h)
event_in (ok none) h = absurd (cc h)
event_in (ok (some ch)) h = (ch, refl)

builds_event :
    is_event (build (edited.surroundings app_root) edited.builder (edited.repository app_root))
    ≡ true
unfolding build working_tree_diff is_denied new_redactor
builds_event = refl

abbrev disk : FileSystem
disk = record { dirs = λ _. no_dirs; is_dir = λ _. false; can_watch = λ _. true }

abbrev write_to : Bytes → FileEvent
write_to path = record {
  name = path;
  created = false;
  written = true;
  removed = false;
  renamed = false;
}

-- The process has started, and a file was saved.
abbrev morning : List Event
morning = served started ∷ noticed 2 (saved 2 disk (write_to (utf8 "/w/app/m.go"))) ∷ []

morning_open : (wired edited 5 20 disk (app_root ∷ []) morning idle).plane.debouncer.closed ≡ false
unfolding run Plane.step is_ignored repo_root_for new_plane start trigger new find
morning_open = refl

morning_up : (wired edited 5 20 disk (app_root ∷ []) morning idle).agent.conn.faults ≡ []
unfolding run Plane.step is_ignored repo_root_for new_plane start trigger new find Daemon.step
    reset_inflight exec
morning_up = refl

nothing_seen :
    (hash : Bytes)
    → (seen_recently edited.library 9 hash dedup_window
        (wired edited 5 20 disk (app_root ∷ []) morning idle).agent.conn).0
      ≡ ok false
unfolding seen_recently run Plane.step is_ignored repo_root_for new_plane start trigger new find
    Daemon.step reset_inflight exec
nothing_seen hash = refl

clear_path : is_ignored (utf8 "/w/app/n.go") ≡ false
unfolding is_ignored
clear_path = refl

inside_app :
    any (λ root. contains (utf8 "/w/app/n.go") root && ltb 0 (length root)) (app_root ∷ []) ≡ true
unfolding contains
inside_app = refl

built_event :
    (ch : ChangeEvent) × (build
        (edited.surroundings app_root)
        edited.builder
        (edited.repository app_root)
      ≡ ok (some ch))
built_event =
    event_in (build (edited.surroundings app_root) edited.builder (edited.repository app_root))
      builds_event

awake : is_paused edited 9 (wired edited 5 20 disk (app_root ∷ []) morning idle).agent ≡ false
unfolding run Plane.step is_ignored repo_root_for new_plane start trigger new find Daemon.step
    reset_inflight exec
awake = refl

root_of : repo_root_for (app_root ∷ []) (utf8 "/w/app/n.go") ≡ app_root
unfolding repo_root_for
root_of = refl

saved-IsQueued_example :
    (id : ℕ) × (due : Time) × IsQueued built_event.0.change_id
      (run edited
        (save_ends edited 5 20 disk (app_root ∷ []) 4 9 disk (write_to (utf8 "/w/app/n.go")) id due)
        (wired edited 5 20 disk (app_root ∷ []) morning idle)).agent.conn.db
saved-IsQueued_example =
    saved-IsQueued edited 5 20 disk (app_root ∷ []) morning idle 4 9 disk
      (write_to (utf8 "/w/app/n.go")) built_event.0 morning_open clear_path refl inside_app awake
      built_event.1 morning_up refl (nothing_seen built_event.0.content_hash)
