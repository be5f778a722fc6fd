-- ===== src/Watcher/Events.antt =====
-- krennic/internal/watcher/watcher.go: the directories that are watched, and what an event of
-- fsnotify does. `watched` holds what was added to the fsnotify watcher, the newest first; a
-- directory stays watched when it is deleted. `calls` is the state behind the callback.
use director_orson_callan_kr.Base.{
  Bytes, Bool, not, ◌&&◌, ◌||◌, List, [], ◌∷◌, any, str_eq, if◌then◌else◌,
}
use director_orson_callan_kr.Watcher.Defs.{ignored_dirs, is_ignored, repo_root_for}
use director_orson_callan_kr.Watcher.Discover.{Dirs, no_dirs, directory}

-- What the file system shows while one call runs: the directory at a path with what is in it,
-- whether os.Stat finds a directory, and whether fsnotify takes a path.
pub record FileSystem : Type 0 where
  pub dirs : Bytes → Dirs
  pub is_dir : Bytes → Bool
  pub can_watch : Bytes → Bool

-- fsnotify.Event, its Op bit by bit. The sixth bit, Chmod, is tested nowhere.
pub record FileEvent : Type 0 where
  pub name : Bytes
  pub created : Bool
  pub written : Bool
  pub removed : Bool
  pub renamed : Bool

pub record Watcher : Type 0 where
  pub repos : List Bytes
  pub watched : List Bytes

-- Whether WalkDir leaves a directory out.
abbrev pub is_skipped : Bytes → Bytes → Bytes → Bool
is_skipped root path name = any (str_eq name) ignored_dirs && not (str_eq path root)

-- fsw.Add
abbrev pub add : (Bytes → Bool) → Bytes → List Bytes → List Bytes
add can_watch path watched = if can_watch path then path ∷ watched else watched

-- The walk of addRecursive.
unfoldable pub add_recursive : (Bytes → Bool) → Bytes → Dirs → List Bytes → List Bytes
add_recursive can_watch root no_dirs watched = watched
add_recursive can_watch root (directory path name has_git inner others) watched =
    let skipped = add_recursive can_watch root others watched in
    let entered =
      add_recursive can_watch root others
        (add_recursive can_watch root inner (add can_watch path watched)) in
    if is_skipped root path name then skipped else entered

-- The loop of Start.
unfoldable pub add_roots : FileSystem → List Bytes → List Bytes → List Bytes
unfolding add_recursive
add_roots fs [] watched = watched
add_roots fs (root ∷ roots) watched =
    add_roots fs roots (add_recursive fs.can_watch root (fs.dirs root) watched)

unfoldable pub start : FileSystem → Watcher → Watcher
unfolding add_roots
start fs w = record w { watched = add_roots fs w.repos w.watched }

-- A created directory is watched too.
unfoldable pub watch_created : FileSystem → FileEvent → Watcher → Watcher
unfolding add_recursive
watch_created fs ev w =
    if ev.created && fs.is_dir ev.name
    then record w { watched = add_recursive fs.can_watch ev.name (fs.dirs ev.name) w.watched }
    else w

abbrev pub is_relevant : FileEvent → Bool
is_relevant ev = ev.written || ev.created || ev.removed || ev.renamed

module _ {S : Type 0} (on_change : Bytes → S → S) where
  -- The call of the callback, unless no root contains the path.
  unfoldable pub report : Bytes → S → S
  report root calls = if str_eq root [] then calls else on_change root calls

  unfoldable pub handle : FileSystem → FileEvent → Watcher × S → Watcher × S
  unfolding watch_created report
  handle fs ev (w, calls) = if is_ignored ev.name then (w, calls) else (
    watch_created fs ev w,
    if is_relevant ev then report (repo_root_for w.repos ev.name) calls else calls,
  )

  -- What the loop receives before one of its channels is closed.
  unfoldable pub loop : List (FileSystem × FileEvent) → Watcher × S → Watcher × S
  unfolding handle
  loop [] st = st
  loop ((fs, ev) ∷ evs) st = loop evs (handle fs ev st)
