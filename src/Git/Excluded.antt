-- ===== src/Git/Excluded.antt =====
-- What CreateShadowSnapshot puts into its commit, over what git documents of an index.
use director_orson_callan_kr.Base.{
  Bytes, ◌≡◌, refl, sym, ◌⊎◌, inl, inr, Bool, true, false, List, [], ◌∷◌, ◌++◌, All, Bool-cases,
  Result, ok, err, Exec, Ends-bind, Returns, Returns-intro, Outcome, Returns-map_err, map_err, utf8,
  subst, ◌>>=◌, pure,
}
use director_orson_callan_kr.Git.Tree.{split_lines}
use director_orson_callan_kr.Git.Shadow.{
  Runner, SnapshotResult, wrapped, index_env, cached_args, rm_args, tree_args, commit_args, exclude,
  exclude_all, stage, commit_snapshot, commit_unless, snapshot_tree, create_shadow_snapshot,
  is_tree, output,
}
use director_orson_callan_kr.Git.Index.{
  IsIndex, Covered, Covered-without, Covered-allowed, Covered-nil, Covered-listed, is_secret,
}

module _ {G : Type 0} (r : Runner G) (deny : Bytes → Bool) (matches : Bytes → Bytes → Bool)
    (staged : G → List Bytes) (paths : Bytes → List Bytes) (path : Bytes)
    (git : IsIndex r (index_env path) matches staged paths) where
  -- No plain path in the index is denied.
  abbrev Allowed : G → Type 0
  Allowed g = All (λ x. is_secret deny x ≡ false) (staged g)

  -- The command that takes a path away.
  abbrev removal : Bytes → Exec G Bytes
  removal p =
      map_err (wrapped (utf8 "exclude denied path " ++ r.quote p))
        (r.run (index_env path) (rm_args p))

  exclude-Covered :
      (p : Bytes) (ps : List Bytes) (g : G)
      → All (Covered deny (p ∷ ps)) (staged g)
      → Returns (exclude r (index_env path) deny p) g (λ _ g'. All (Covered deny ps) (staged g'))
  unfolding exclude
  exclude-Covered p ps g h = elim (Bool-cases (deny p)) [
    | inr e ↦ rw e (Covered-allowed deny p ps (staged g) e h)
    | inl e ↦ rw e (
        Ends-bind (removal p) (λ _. pure tt) g (λ _ _. Unit)
          (λ _ g'. All (Covered deny ps) (staged g')) (λ _ g'. All (Covered deny ps) (staged g'))
          (Returns-map_err (wrapped (utf8 "exclude denied path " ++ r.quote p))
            (r.run (index_env path) (rm_args p)) g (λ _ g'. All (Covered deny ps) (staged g'))
            (Returns-intro (r.run (index_env path) (rm_args p)) g
              (λ _ g'. All (Covered deny ps) (staged g'))
              (λ out k.
                subst (All (Covered deny ps)) (sym (git.removes g p out k))
                  (Covered-without deny matches git.itself p ps (staged g) h))))
          (λ _ g' k. k))
  ]

  exclude_all-Allowed :
      (ps : List Bytes) (g : G)
      → All (Covered deny ps) (staged g)
      → Returns (exclude_all r (index_env path) deny ps) g (λ _. Allowed)
  unfolding exclude_all
  exclude_all-Allowed [] g h = Covered-nil deny (staged g) h
  exclude_all-Allowed (p ∷ ps) g h =
      Ends-bind (exclude r (index_env path) deny p) (λ _. exclude_all r (index_env path) deny ps) g
        (λ _ _. Unit) (λ _ g'. All (Covered deny ps) (staged g')) (λ _. Allowed)
        (exclude-Covered p ps g h) (λ _ g' k. exclude_all-Allowed ps g' k)

  abbrev listing : Exec G Bytes
  listing = map_err (wrapped (utf8 "list temp index")) (r.run (index_env path) cached_args)

  listing-Covered :
      (g : G) → Returns listing g (λ out g'. All (Covered deny (split_lines out)) (staged g'))
  listing-Covered g =
      Returns-map_err (wrapped (utf8 "list temp index")) (r.run (index_env path) cached_args) g
        (λ out g'. All (Covered deny (split_lines out)) (staged g'))
        (Returns-intro (r.run (index_env path) cached_args) g
          (λ out g'. All (Covered deny (split_lines out)) (staged g'))
          (λ out k.
            let (a, b) = git.lists g out k in
            subst (All (Covered deny (split_lines out))) (sym b)
              (Covered-listed deny (split_lines out) (staged g) a)))

  abbrev filling : Exec G Bytes
  filling =
      map_err (wrapped (utf8 "stage into temp index"))
        (r.run (index_env path) (utf8 "add" ∷ utf8 "-A" ∷ []))

  any_end {ℓ} : {A : Type ℓ} (m : Result A) → Outcome m (λ _. Unit {0}) (λ _. Unit {0})
  any_end (ok a) = tt
  any_end (err e) = tt

  -- The index when write-tree is called.
  stage-Allowed : (g : G) → Returns (stage r (index_env path) deny) g (λ _. Allowed)
  unfolding stage
  stage-Allowed g =
      Ends-bind filling
        (λ _. listing >>= λ out. exclude_all r (index_env path) deny (split_lines out)) g
        (λ _ _. Unit) (λ _ _. Unit) (λ _. Allowed) (any_end (filling g).0)
        (λ _ g1 _.
          Ends-bind listing (λ out. exclude_all r (index_env path) deny (split_lines out)) g1
            (λ _ _. Unit) (λ out g'. All (Covered deny (split_lines out)) (staged g'))
            (λ _. Allowed) (listing-Covered g1)
            (λ out g2 k. exclude_all-Allowed (split_lines out) g2 k))

  -- A snapshot without a commit, or with a commit of a tree without plain paths that are denied.
  abbrev pub IsExcluded : SnapshotResult → Type 0
  IsExcluded snap =
      ((snap.no_op ≡ true) × (snap.sha ≡ [])) ⊎ All (λ x. is_secret deny x ≡ false) (paths snap.sha)

  abbrev head_args : List Bytes
  head_args = utf8 "rev-parse" ∷ utf8 "HEAD" ∷ []

  abbrev head_tree_args : List Bytes
  head_tree_args = utf8 "rev-parse" ∷ utf8 "HEAD^{tree}" ∷ []

  abbrev commit : Bytes → Bytes → Bytes → Exec G Bytes
  commit tree parent msg =
      map_err (wrapped (utf8 "commit-tree")) (r.run [] (commit_args tree parent msg))

  abbrev made : Bytes → Exec G SnapshotResult
  made sha = pure (record { sha = sha; no_op = false })

  abbrev writing : Exec G Bytes
  writing = map_err (wrapped (utf8 "write-tree")) (r.run (index_env path) tree_args)

  commit_snapshot-IsExcluded :
      (msg tree : Bytes) (g : G)
      → All (λ x. is_secret deny x ≡ false) (paths tree)
      → Returns (commit_snapshot r msg tree) g (λ snap _. IsExcluded snap)
  unfolding commit_snapshot
  commit_snapshot-IsExcluded msg tree g h =
      Ends-bind (output r head_args) (λ parent. commit tree parent msg >>= made) g (λ _ _. Unit)
        (λ _ _. Unit) (λ snap _. IsExcluded snap) (any_end (output r head_args g).0)
        (λ parent g1 _.
          Ends-bind (commit tree parent msg) made g1 (λ _ _. Unit) (λ sha _. paths sha ≡ paths tree)
            (λ snap _. IsExcluded snap)
            (Returns-map_err (wrapped (utf8 "commit-tree")) (r.run [] (commit_args tree parent msg))
              g1 (λ sha _. paths sha ≡ paths tree)
              (Returns-intro (r.run [] (commit_args tree parent msg)) g1
                (λ sha _. paths sha ≡ paths tree) (λ sha k. git.commits g1 tree parent msg sha k)))
            (λ sha g2 k. inr (subst (All (λ x. is_secret deny x ≡ false)) (sym k) h)))

  commit_unless-IsExcluded :
      (msg tree : Bytes) (head : Result Bytes) (g : G)
      → All (λ x. is_secret deny x ≡ false) (paths tree)
      → Returns (commit_unless r msg tree head) g (λ snap _. IsExcluded snap)
  unfolding commit_unless
  commit_unless-IsExcluded msg tree head g h = elim (Bool-cases (is_tree tree head)) [
    | inl e ↦ rw e (inl (refl, refl))
    | inr e ↦ rw e (commit_snapshot-IsExcluded msg tree g h)
  ]

  snapshot_tree-IsExcluded :
      (msg tree : Bytes) (g : G)
      → All (λ x. is_secret deny x ≡ false) (paths tree)
      → Returns (snapshot_tree r msg tree) g (λ snap _. IsExcluded snap)
  unfolding snapshot_tree
  snapshot_tree-IsExcluded msg tree g h =
      commit_unless-IsExcluded msg tree (r.run [] head_tree_args g).0 (r.run [] head_tree_args g).1
        h

  written :
      (g : G)
      → Allowed g
      → Returns writing g (λ tree _. All (λ x. is_secret deny x ≡ false) (paths tree))
  written g h =
      Returns-map_err (wrapped (utf8 "write-tree")) (r.run (index_env path) tree_args) g
        (λ tree _. All (λ x. is_secret deny x ≡ false) (paths tree))
        (Returns-intro (r.run (index_env path) tree_args) g
          (λ tree _. All (λ x. is_secret deny x ≡ false) (paths tree))
          (λ tree k. subst (All (λ x. is_secret deny x ≡ false)) (sym (git.writes g tree k)) h))

  -- A snapshot that CreateShadowSnapshot returns is no commit, since nothing has changed, or a commit
  -- in whose tree no plain path is one that the deny function denies, over what git documents of its
  -- index. A plain path has printable ASCII bytes only, none of them a blank, a quote, a backslash, a
  -- colon or a character of patterns. Of other paths, which git quotes or takes for patterns, nothing
  -- is said.
  pub create_shadow_snapshot-IsExcluded :
      (msg : Bytes) (g : G)
      → Returns (create_shadow_snapshot r (ok path) msg deny) g (λ snap _. IsExcluded snap)
  unfolding create_shadow_snapshot
  create_shadow_snapshot-IsExcluded msg g =
      Ends-bind (stage r (index_env path) deny) (λ _. writing >>= snapshot_tree r msg) g
        (λ _ _. Unit) (λ _. Allowed) (λ snap _. IsExcluded snap) (stage-Allowed g)
        (λ _ g1 h.
          Ends-bind writing (snapshot_tree r msg) g1 (λ _ _. Unit)
            (λ tree _. All (λ x. is_secret deny x ≡ false) (paths tree)) (λ snap _. IsExcluded snap)
            (written g1 h) (λ tree g2 k. snapshot_tree-IsExcluded msg tree g2 k))
