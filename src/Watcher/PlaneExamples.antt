-- ===== src/Watcher/PlaneExamples.antt =====
-- The theorems on the watcher's events at small trees and runs.
use director_orson_callan_kr.Base.{
  Bytes, ◌≡◌, refl, true, false, ◌&&◌, ◌||◌, List, [], ◌∷◌, any, utf8, str_eq, split,
}
use director_orson_callan_kr.Sql.Table.{find}
use director_orson_callan_kr.Debounce.Defs.{
  Debouncer, new, fired, ran, expired, trigger, trigger_state, fire, call_fn, expire, is_due,
  disarm, take_ready,
}
use director_orson_callan_kr.Debounce.Defs as Debounce
use director_orson_callan_kr.Watcher.Defs.{is_ignored, contains, repo_root_for}
use director_orson_callan_kr.Watcher.Discover.{Dirs, no_dirs, directory}
use director_orson_callan_kr.Watcher.Events.{
  FileSystem, FileEvent, Watcher, add_recursive, start, loop,
}
use director_orson_callan_kr.Watcher.Watched.{is_reached, add_recursive-reached}
use director_orson_callan_kr.Watcher.Reported.{loop-deaf}
use director_orson_callan_kr.Watcher.Plane.{Input, saved, timed, new_plane, run}
use director_orson_callan_kr.Watcher.Saved.{after}

-- /w/app with a source directory and an ignored one.
abbrev app : Dirs
app =
    directory (utf8 "/w/app") (utf8 "app") true
      (directory (utf8 "/w/app/src") (utf8 "src") false no_dirs
        (directory (utf8 "/w/app/vendor") (utf8 "vendor") false no_dirs no_dirs))
      no_dirs

abbrev disk : FileSystem
disk = record { dirs = λ _. app; is_dir = λ _. false; can_watch = λ _. true }

abbrev write_to : Bytes → FileEvent
write_to path = record {
  name = path;
  created = false;
  written = true;
  removed = false;
  renamed = false;
}

watches_sources :
    add_recursive (λ _. true) (utf8 "/w/app") app [] ≡ utf8 "/w/app/src" ∷ utf8 "/w/app" ∷ []
unfolding add_recursive str_eq
watches_sources = refl

add_recursive-reached_example :
    any (str_eq (utf8 "/w/app/src")) (add_recursive (λ _. true) (utf8 "/w/app") app []) ≡ (
      any (str_eq (utf8 "/w/app/src")) []
      || (true && is_reached (utf8 "/w/app") app (utf8 "/w/app/src")))
add_recursive-reached_example =
    add_recursive-reached (λ _. true) (utf8 "/w/app") app [] (utf8 "/w/app/src")

-- A repository below a directory that is called `build`.
abbrev built : Watcher
built = record { repos = utf8 "/u/build/app" ∷ []; watched = utf8 "/u/build/app" ∷ [] }

built_is_ignored : is_ignored (utf8 "/u/build/app") ≡ true
unfolding is_ignored split str_eq
built_is_ignored = refl

loop-deaf_example :
    any
      (str_eq (utf8 "/u/build/app"))
      (loop ◌∷◌ ((disk, write_to (utf8 "/u/build/app/m.go")) ∷ []) (built, [])).1
    ≡ any (str_eq (utf8 "/u/build/app")) []
loop-deaf_example =
    loop-deaf (utf8 "/u/build/app") ((disk, write_to (utf8 "/u/build/app/m.go")) ∷ []) built []
      built_is_ignored

-- A save, its timer, and the call of the callback.
abbrev one_save : List Input
one_save =
    saved 0 disk (write_to (utf8 "/w/app/m.go"))
    ∷ timed (expired 0 (utf8 "/w/app") 9)
    ∷ timed (fired (utf8 "/w/app"))
    ∷ timed (ran (utf8 "/w/app"))
    ∷ []

one_save_calls :
    (after 5 20 disk (utf8 "/w/app" ∷ []) one_save).debouncer.emitted ≡ utf8 "/w/app" ∷ []
unfolding run Debounce.step fire call_fn expire is_ignored repo_root_for new_plane start trigger new
    find
one_save_calls = refl

one_save_open : (after 5 20 disk (utf8 "/w/app" ∷ []) one_save).debouncer.closed ≡ false
unfolding run Debounce.step fire call_fn expire is_ignored repo_root_for new_plane start trigger new
    find
one_save_open = refl

clear_source : is_ignored (utf8 "/w/app/src/n.go") ≡ false
unfolding is_ignored split str_eq
clear_source = refl

inside_app : contains (utf8 "/w/app/src/n.go") (utf8 "/w/app") ≡ true
unfolding contains
inside_app = refl
