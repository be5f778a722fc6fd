-- ===== src/Git/GcRoots.antt =====
-- krennic/cmd/krennic/admin.go: which shadow refs gc leaves when it has been to every repository.
use director_orson_callan_kr.Base.{
  ℕ, Bytes, ◌≡◌, refl, sym, ◌∙◌, Bool, true, false, ◌&&◌, List, [], ◌∷◌, All, Lacks, any, str_eq,
  str_eq_iff, trim_right_by, ◌==◌, arith, Bool-cases, inl, inr,
}
use director_orson_callan_kr.Git.Shadow.{list_shadow_refs, local_branches}
use director_orson_callan_kr.Git.Refs.{shadow_ref_name, branch_from_shadow_ref-shadow_ref_name}
use director_orson_callan_kr.Git.Gc.{Root, listed_branches, gc_root, gc_roots}
use director_orson_callan_kr.Git.GcKept.{IsRefStore, is_dead, any_live, gc_root-alive}
use director_orson_callan_kr.Git.GcForeign.{foreign_dead}

module _ {G : Type 0} (there : G → Bool) (ref namespace user : Bytes) where
  -- No pass over the repository takes the ref for dead.
  abbrev Spares : Root G → Type 0
  Spares root =
      IsRefStore root.runner there ref
      × ((g : G)
          → is_dead namespace user root.repo_name
              (listed_branches
                (local_branches root.runner (list_shadow_refs root.runner namespace g).1).0)
              ref
            ≡ false)

  gc_roots-spare :
      (roots : List (Root G)) (n : ℕ) (g : G)
      → All Spares roots
      → there (gc_roots namespace user roots n g).1 ≡ there g
  unfolding gc_roots
  gc_roots-spare [] n g h = refl
  gc_roots-spare (root ∷ roots) n g ((git, alive), h) =
      let (m, g') = gc_root namespace user root n g in
      gc_roots-spare roots m g' h ∙ gc_root-alive root there ref git namespace user n g (alive g)

module _ {G : Type 0} (namespace user other_user repo : Bytes) where
  -- A repository of another user's ref, or of another base name.
  abbrev pub IsForeign : Root G → Type 0
  IsForeign root =
      Lacks b'/' root.repo_name × ((str_eq other_user user && str_eq repo root.repo_name) ≡ false)

  -- gc leaves the shadow refs of other users and of other repositories.
  pub gc_roots-foreign :
      (there : G → Bool) (branch : Bytes) (roots : List (Root G))
      → All
          (λ (root : Root G).
            IsRefStore root.runner there (shadow_ref_name namespace other_user repo branch))
          roots
      → trim_right_by (λ c. c == b'/') namespace ≡ namespace
      → Lacks b'/' user
      → Lacks b'/' other_user
      → Lacks b'/' repo
      → All IsForeign roots
      → (n : ℕ) (g : G) → there (gc_roots namespace user roots n g).1 ≡ there g
  gc_roots-foreign there branch roots git trimmed mine theirs named foreign n g =
      let ref = shadow_ref_name namespace other_user repo branch in
      gc_roots-spare there ref namespace user roots n g (spared roots git foreign)
    where
      spared :
          (roots : List (Root G))
          → All
              (λ (root : Root G).
                IsRefStore root.runner there (shadow_ref_name namespace other_user repo branch))
              roots
          → All IsForeign roots
          → All
              (Spares there (shadow_ref_name namespace other_user repo branch) namespace user)
              roots
      spared [] git foreign = tt
      spared (root ∷ roots) git foreign = (
        (
          git.0,
          λ g.
              foreign_dead namespace user root.repo_name other_user repo mine (foreign.0).0 theirs
                named (foreign.0).1 branch
                (listed_branches
                  (local_branches root.runner (list_shadow_refs root.runner namespace g).1).0)
                trimmed,
        ),
        spared roots git.1 foreign.1,
      )

module _ {G : Type 0} (there : G → Bool) (namespace user repo : Bytes) (c : ℕ)
    (branch : Bytes) where
  -- A repository, as git documents its refs, that lists the branch whenever it is asked for its
  -- branches, if its base name is `repo`.
  pub record IsClone (root : Root G) : Type 0 where
    pub stores : IsRefStore root.runner there (shadow_ref_name namespace user repo (c ∷ branch))
    pub named : Lacks b'/' root.repo_name
    pub lists :
        (g : G)
        → str_eq repo root.repo_name ≡ true
        → any (str_eq (c ∷ branch)) (listed_branches (local_branches root.runner g).0) ≡ true

  module _ (trimmed : trim_right_by (λ c. c == b'/') namespace ≡ namespace) (mine : Lacks b'/' user)
      (named : Lacks b'/' repo) where
    listed_alive :
        (live : List Bytes)
        → any (str_eq (c ∷ branch)) live ≡ true
        → is_dead namespace user repo live (shadow_ref_name namespace user repo (c ∷ branch))
          ≡ false
    listed_alive live h =
        rw
          (
            branch_from_shadow_ref-shadow_ref_name namespace user repo c branch trimmed,
            any_live (c ∷ branch) live h,
          )
          (ground arith)

    clone_alive :
        (root : Root G)
        → IsClone root
        → (g : G)
        → is_dead namespace user root.repo_name
            (listed_branches (local_branches root.runner g).0)
            (shadow_ref_name namespace user repo (c ∷ branch))
          ≡ false
    clone_alive root h g =
        let live = listed_branches (local_branches root.runner g).0 in
        elim (Bool-cases (str_eq repo root.repo_name)) [
          | inl e ↦
              rw (sym ((str_eq_iff repo root.repo_name).0 e)) (listed_alive live (h.lists g e))
          | inr e ↦
              foreign_dead namespace user root.repo_name user repo mine h.named mine named
                (ground (arith, e)) (c ∷ branch) live trimmed
        ]

    -- gc keeps the shadow ref of a live branch, in the repository or in the remote one: when gc has
    -- been to every repository, the shadow ref of a branch is there exactly if it was there before,
    -- over what git documents of refs, if every repository of its base name lists the branch
    -- whenever gc asks it. The namespace does not end in a slash, and neither the user nor a base
    -- name has one. Any other command may fail.
    pub gc_roots-keeps :
        (roots : List (Root G)) (n : ℕ) (g : G)
        → All IsClone roots
        → there (gc_roots namespace user roots n g).1 ≡ there g
    gc_roots-keeps roots n g h =
        gc_roots-spare there (shadow_ref_name namespace user repo (c ∷ branch)) namespace user roots
          n g (spared roots h)
      where
        spared :
            (roots : List (Root G))
            → All IsClone roots
            → All
                (Spares there (shadow_ref_name namespace user repo (c ∷ branch)) namespace user)
                roots
        spared [] h = tt
        spared (root ∷ roots) h = (
          ((h.0).stores, λ g. clone_alive root h.0 (list_shadow_refs root.runner namespace g).1),
          spared roots h.1,
        )
