-- ===== src/Change/Content.antt =====
-- What the content hash and the event of a change promise.
use director_orson_callan_kr.Base.{
  Bytes, ◌≡◌, ◌≢◌, refl, sym, ◌⊎◌, inl, inr, Bool, false, Bool-cases, Option, none, some, List, [],
  ◌∷◌, ◌++◌, map, All, Lacks, str_eq, str_eq_iff, Result, ok, err, Outcome,
}
use director_orson_callan_kr.Model.{Hunk, ChangeEvent}
use director_orson_callan_kr.Git.Tree.{Repository, DiffResult, working_tree_diff}
use director_orson_callan_kr.Git.Withheld.{IsWithheld, working_tree_diff-IsWithheld}
use director_orson_callan_kr.Change.Defs.{
  hash_input, content_hash, Builder, Surroundings, is_repo, denies_path, mask, snapshotted,
  build_hunks, build_diff, build, event_of,
}

-- The path and the patch of a hunk.
abbrev pub content : Hunk → Bytes × Bytes
content h = (h.path, h.patch)

abbrev pub IsText : Hunk → Type 0
IsText h = Lacks 0 h.path × Lacks 0 h.patch

-- A text without zero bytes is determined by what begins with it and a zero byte.
nul_terminated :
    (a b p q : Bytes) → Lacks 0 a → Lacks 0 b → a ++ 0 ∷ p ≡ b ++ 0 ∷ q → (a ≡ b) × (p ≡ q)
nul_terminated [] [] p q ha hb e = (refl, cc)
nul_terminated [] (y ∷ b) p q ha hb e = absurd (hb.0 cc)
nul_terminated (x ∷ a) [] p q ha hb e = absurd (ha.0 cc)
nul_terminated (x ∷ a) (y ∷ b) p q ha hb e =
    let (h, k) = nul_terminated a b p q ha.1 hb.1 cc in (cc, k)

not_empty : (a p : Bytes) → a ++ 0 ∷ p ≢ []
not_empty [] p e = cc
not_empty (x ∷ a) p e = cc

hash_input-injective :
    (hs ks : List Hunk)
    → All IsText hs
    → All IsText ks
    → hash_input hs ≡ hash_input ks
    → map content hs ≡ map content ks
unfolding hash_input
hash_input-injective [] [] th tk e = refl
hash_input-injective [] (k ∷ ks) th tk e = absurd (not_empty k.path _ (sym e))
hash_input-injective (h ∷ hs) [] th tk e = absurd (not_empty h.path _ e)
hash_input-injective (h ∷ hs) (k ∷ ks) th tk e =
    let (paths, rest) = nul_terminated h.path k.path _ _ th.0.0 tk.0.0 e in
    let (patches, more) = nul_terminated h.patch k.patch _ _ th.0.1 tk.0.1 rest in
    let ih = hash_input-injective hs ks th.1 tk.1 more in cc

-- The content hash identifies a change: two lists of hunks without zero bytes that have one hash
-- have the same paths and patches in the same order, or what is written to the hash for them
-- differs and has one digest.
pub content_hash-identifies :
    (digest : Bytes → Bytes) (hs ks : List Hunk)
    → All IsText hs
    → All IsText ks
    → content_hash digest hs ≡ content_hash digest ks
    → (map content hs ≡ map content ks)
      ⊎ ((hash_input hs ≢ hash_input ks) × (digest (hash_input hs) ≡ digest (hash_input ks)))
unfolding content_hash
content_hash-identifies digest hs ks th tk e =
    elim (Bool-cases (str_eq (hash_input hs) (hash_input ks))) [
      | inl same ↦
          inl
            (hash_input-injective hs ks th tk ((str_eq_iff (hash_input hs) (hash_input ks)).0 same))
      | inr ne ↦ inr ((λ k. cc (ne, (str_eq_iff (hash_input hs) (hash_input ks)).1 k)), e)
    ]

-- An event, if there is one, none of whose hunks has a denied path.
abbrev pub IsWithheldEvent : (Bytes → Bool) → Option ChangeEvent → Type 0
IsWithheldEvent deny none = Unit
IsWithheldEvent deny (some ev) = All (λ (h : Hunk). deny h.path ≡ false) ev.diff.hunks

module _ (s : Surroundings) (b : Builder) (repo : Repository) where
  -- The outcome of Build.
  abbrev pub Built : Result (Option ChangeEvent) → Type 0
  Built r = Outcome r (λ e. Unit) (IsWithheldEvent (denies_path s b repo))

  snapshotted-Built :
      (diff : DiffResult) (r : Result Bytes)
      → IsWithheld (denies_path s b repo) diff
      → Built (snapshotted s b repo diff r)
  unfolding snapshotted event_of
  snapshotted-Built diff (err e) w = tt
  snapshotted-Built diff (ok sha) w = w.hunks

  build_hunks-Built :
      (diff : DiffResult) (hs : List Hunk)
      → IsWithheld (denies_path s b repo) diff
      → Built (build_hunks s b repo diff hs)
  unfolding build_hunks
  build_hunks-Built diff [] w = tt
  build_hunks-Built diff (h ∷ hs) w = snapshotted-Built diff _ w

  build_diff-Built :
      (E : Bytes → Type 0) (r : Result DiffResult)
      → Outcome r E (IsWithheld (denies_path s b repo))
      → Built (build_diff s b repo r)
  unfolding build_diff
  build_diff-Built E (err e) w = tt
  build_diff-Built E (ok diff) w = build_hunks-Built diff diff.hunks w

  -- No event that Build returns has a hunk of a path that the deny list of its Redactor denies.
  pub build-Built : Built (build s b repo)
  unfolding build
  build-Built = elim (Bool-cases (is_repo repo)) [
    | inr e ↦ rw e tt
    | inl e ↦ rw e (
        build_diff-Built _
          (working_tree_diff repo (denies_path s b repo) (mask s b repo) b.diff_options)
          (working_tree_diff-IsWithheld repo (denies_path s b repo) (mask s b repo) b.diff_options))
  ]
