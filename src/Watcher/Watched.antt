-- ===== src/Watcher/Watched.antt =====
-- Which directories addRecursive watches.
use director_orson_callan_kr.Base.{
  Bytes, ◌≡◌, Bool, false, not, ◌&&◌, ◌||◌, List, any, arith, str_eq, str_eq_iff, str_eq_refl,
  Bool-cases, inl, inr,
}
use director_orson_callan_kr.Watcher.Discover.{Dirs, no_dirs, directory}
use director_orson_callan_kr.Watcher.Events.{is_skipped, add, add_recursive}

-- Whether a path is that of a directory of the tree that stands in no directory with an ignored
-- name, and has none itself, but for the root of the walk.
abbrev pub is_reached : Bytes → Dirs → Bytes → Bool
is_reached root no_dirs p = false
is_reached root (directory path name has_git inner others) p =
    (not (is_skipped root path name) && (str_eq p path || is_reached root inner p))
    || is_reached root others p

any-add :
    (p : Bytes) (can_watch : Bytes → Bool) (path : Bytes) (watched : List Bytes)
    → any (str_eq p) (add can_watch path watched)
      ≡ (any (str_eq p) watched || (can_watch p && str_eq p path))
any-add p can_watch path watched = elim (Bool-cases (str_eq p path)) [
  | inl e ↦ rw ((str_eq_iff p path).0 e) (ground (arith, str_eq_refl path))
  | inr e ↦ ground (arith, e)
]

-- After addRecursive a path is watched exactly if it was before, or fsnotify takes it and it is the
-- path of a directory under the root that is outside every ignored directory.
pub add_recursive-reached :
    (can_watch : Bytes → Bool) (root : Bytes) (dirs : Dirs) (watched : List Bytes) (p : Bytes)
    → any (str_eq p) (add_recursive can_watch root dirs watched)
      ≡ (any (str_eq p) watched || (can_watch p && is_reached root dirs p))
unfolding add_recursive
add_recursive-reached can_watch root no_dirs watched p = ground arith
add_recursive-reached can_watch root (directory path name has_git inner others) watched p =
    elim (Bool-cases (is_skipped root path name)) [
      | inl e ↦ rw e (ground (arith, e, add_recursive-reached can_watch root others watched p))
      | inr e ↦
          rw
            (
              e,
              add_recursive-reached can_watch root others
                  (add_recursive can_watch root inner (add can_watch path watched)) p,
              add_recursive-reached can_watch root inner (add can_watch path watched) p,
              any-add p can_watch path watched,
            )
            (ground (arith, e))
    ]
