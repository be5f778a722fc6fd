-- ===== src/Watcher/Reported.antt =====
-- Which roots the loop of the watcher reports.
use director_orson_callan_kr.Base.{
  Bytes, ◌≡◌, refl, ◌∙◌, true, false, ◌&&◌, List, [], ◌∷◌, ◌++◌, any, any-append, split-append,
  arith, str_eq, str_eq_iff, Bool-cases, inl, inr, has_prefix, utf8, ltb, length, All, append_assoc,
}
use director_orson_callan_kr.Watcher.Defs.{ignored_dirs, is_ignored, contains, repo_root_for}
use director_orson_callan_kr.Watcher.Longest.{repo_root_for-longest}
use director_orson_callan_kr.Watcher.Events.{
  FileSystem, FileEvent, Watcher, is_relevant, report, handle, loop,
}

has_prefix-append : (s p : Bytes) → has_prefix s p ≡ true → (rest : Bytes) × (s ≡ p ++ rest)
unfolding has_prefix
has_prefix-append s [] h = (s, refl)
has_prefix-append [] (b ∷ p) h = cc
has_prefix-append (a ∷ s) (b ∷ p) h =
    let (rest, e) = has_prefix-append s p (ground arith) in (rest, ground arith)

-- A path below a root has the components of the root.
is_ignored-contains :
    (path root : Bytes)
    → contains path root ≡ true
    → is_ignored root ≡ true
    → is_ignored path ≡ true
unfolding contains is_ignored
is_ignored-contains path root c h = elim (Bool-cases (str_eq path root)) [
  | inl same ↦ rw ((str_eq_iff path root).0 same) h
  | inr other ↦
      let (rest, e) = has_prefix-append path (root ++ utf8 "/") (ground (arith, c, other)) in
      let f = λ (part : Bytes). any (str_eq part) ignored_dirs in
      rw (e, append_assoc, split-append, any-append) (ground (arith, h))
]

-- What repoRootFor returns is below no ignored directory, if the path is not.
repo_root_for-clear :
    (repos : List Bytes) (path root : Bytes)
    → is_ignored path ≡ false
    → is_ignored root ≡ true
    → str_eq root (repo_root_for repos path) ≡ true
    → str_eq (repo_root_for repos path) [] ≡ true
unfolding str_eq
repo_root_for-clear repos path root clear h same = elim (repo_root_for-longest repos path).0 [
  | inl none_found ↦ rw none_found refl
  | inr (c, _) ↦
      let e : root ≡ repo_root_for repos path = (str_eq_iff _ _).0 same in
      let k : is_ignored path ≡ true = is_ignored-contains path root (rw e c) h in cc
]

module _ (root : Bytes) (h : is_ignored root ≡ true) where
  report-deaf :
      (repos calls : List Bytes) (path : Bytes)
      → is_ignored path ≡ false
      → any (str_eq root) (report ◌∷◌ (repo_root_for repos path) calls) ≡ any (str_eq root) calls
  unfolding report
  report-deaf repos calls path clear = ground (arith, repo_root_for-clear repos path root clear h)

  handle-deaf :
      (fs : FileSystem) (ev : FileEvent) (w : Watcher) (calls : List Bytes)
      → any (str_eq root) (handle ◌∷◌ fs ev (w, calls)).1 ≡ any (str_eq root) calls
  unfolding handle
  handle-deaf fs ev w calls = ground (arith, report-deaf w.repos calls ev.name)

-- A repository that has an ignored directory's name among the components of its path, above or at
-- its root, is never reported, whatever events come: isIgnored looks at the whole path of an event.
pub loop-deaf :
    (root : Bytes) (evs : List (FileSystem × FileEvent)) (w : Watcher) (calls : List Bytes)
    → is_ignored root ≡ true
    → any (str_eq root) (loop ◌∷◌ evs (w, calls)).1 ≡ any (str_eq root) calls
unfolding loop
loop-deaf root [] w calls h = refl
loop-deaf root ((fs, ev) ∷ evs) w calls h =
    let st = handle ◌∷◌ fs ev (w, calls) in
    loop-deaf root evs st.0 st.1 h ∙ handle-deaf root h fs ev w calls

any-longer :
    (path best : Bytes) (repos : List Bytes)
    → any (λ root. contains path root && ltb 0 (length root)) repos ≡ true
    → All (λ root. (contains path root && ltb (length best) (length root)) ≡ false) repos
    → str_eq best [] ≡ false
unfolding str_eq
any-longer path best [] h k = cc
any-longer path [] (root ∷ repos) h k = ground (arith, k.0, any-longer path [] repos, h, k.1)
any-longer path (b ∷ best) (root ∷ repos) h k = refl

-- A save, a creation, a deletion or a renaming of a path with no ignored component that a root
-- contains is reported as a change of the longest such root.
pub handle-reports :
    {S : Type 0} (on_change : Bytes → S → S) (fs : FileSystem) (ev : FileEvent) (w : Watcher)
    (calls : S)
    → is_ignored ev.name ≡ false
    → is_relevant ev ≡ true
    → any (λ root. contains ev.name root && ltb 0 (length root)) w.repos ≡ true
    → (handle on_change fs ev (w, calls)).1 ≡ on_change (repo_root_for w.repos ev.name) calls
unfolding handle report
handle-reports on_change fs ev w calls clear relevant inside = ground (
  arith,
  any-longer ev.name (repo_root_for w.repos ev.name) w.repos inside
      (repo_root_for-longest w.repos ev.name).1,
)
