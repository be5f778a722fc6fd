-- ===== src/Git/GcKept.antt =====
-- Which shadow refs gc leaves, over what git documents of refs.
use director_orson_callan_kr.Base.{
  ℕ, Bytes, ◌≡◌, refl, sym, ap, ◌∙◌, Bool, true, false, not, ◌&&◌, List, [], ◌∷◌, ◌++◌, any, Result,
  ok, err, str_eq, str_eq_iff, str_eq_refl, Bool-cases, inl, inr, utf8, arith, Exec, pure, ◌>>=◌,
  continue,
}
use director_orson_callan_kr.Git.Shadow.{
  Runner, ssh_env, list_shadow_refs, local_branches, delete_shadow_ref,
}
use director_orson_callan_kr.Git.Tree.{split_lines}
use director_orson_callan_kr.Git.Refs.{branch_from_shadow_ref}
use director_orson_callan_kr.Git.Gc.{
  Root, dashed, is_live, listed_branches, delete_dead, gc_listed, gc_root,
}

abbrev pub remove_args : Bytes → List Bytes
remove_args ref = utf8 "update-ref" ∷ utf8 "-d" ∷ ref ∷ []

abbrev pub push_args : Bytes → List Bytes
push_args ref = utf8 "push" ∷ utf8 "ai-remote" ∷ (utf8 ":" ++ ref) ∷ []

-- What git documents of one ref: only update-ref -d of that ref deletes it in the repository, and
-- only a push that deletes it deletes it in the remote one.
pub record IsRefStore {G : Type 0} (r : Runner G) (there : G → Bool) (ref : Bytes) : Type 0 where
  pub lists :
      (format pattern : Bytes) (g : G)
      → there (r.run [] (utf8 "for-each-ref" ∷ format ∷ pattern ∷ []) g).1 ≡ there g
  pub removes :
      (other : Bytes) (g : G)
      → str_eq other ref ≡ false
      → there (r.run [] (remove_args other) g).1 ≡ there g
  pub pushes :
      (other : Bytes) (g : G)
      → str_eq other ref ≡ false
      → there (r.run (ssh_env r) (push_args other) g).1 ≡ there g

module _ {G A B : Type 0} where
  continue-pure : (r : Result A) (f : A → B) (g : G) → (continue r (λ a. pure (f a)) g).1 ≡ g
  continue-pure (ok a) f g = refl
  continue-pure (err e) f g = refl

  -- A call whose value is only computed with.
  then_pure : (m : Exec G A) (f : A → B) (g : G) → ((m >>= λ a. pure (f a)) g).1 ≡ (m g).1
  then_pure m f g = continue-pure (m g).0 f (m g).1

pub any_live :
    (branch : Bytes) (bs : List Bytes)
    → any (str_eq branch) bs ≡ true
    → is_live bs (dashed branch) ≡ true
unfolding is_live
any_live branch [] h = cc
any_live branch (b ∷ bs) h = elim (Bool-cases (str_eq branch b)) [
  | inl e ↦ rw (sym ((str_eq_iff branch b).0 e), str_eq_refl (dashed branch)) refl
  | inr e ↦ ground (arith, any_live branch bs (rw e at h))
]

-- Whether gc takes a ref for that of a branch that is gone.
abbrev pub is_dead : Bytes → Bytes → Bytes → List Bytes → Bytes → Bool
is_dead namespace user repo live ref =
    let branch = branch_from_shadow_ref ref namespace user repo in
    not (str_eq branch []) && not (is_live live branch)

module _ {G : Type 0} (root : Root G) (there : G → Bool) (ref : Bytes)
    (git : IsRefStore root.runner there ref) (namespace user : Bytes) where
  delete_other :
      (other : Bytes) (g : G)
      → str_eq other ref ≡ false
      → there (delete_shadow_ref root.runner (utf8 "ai-remote") other g).1 ≡ there g
  unfolding delete_shadow_ref
  delete_other other g n =
      let (r, g') = root.runner.run [] (remove_args other) g in
      ap there
        (then_pure (root.runner.run (ssh_env root.runner) (push_args other)) (λ _. tt {0}) g')
      ∙ git.pushes other g' n
      ∙ git.removes other g n

  delete_dead-keeps :
      (live refs : List Bytes) (n : ℕ) (g : G)
      → is_dead namespace user root.repo_name live ref ≡ false
      → there (delete_dead namespace user root live refs n g).1 ≡ there g
  unfolding delete_dead
  delete_dead-keeps live [] n g h = refl
  delete_dead-keeps live (other ∷ refs) n g h =
      elim (Bool-cases (is_dead namespace user root.repo_name live other)) [
        | inr e ↦ rw e (delete_dead-keeps live refs n g h)
        | inl e ↦
            let (r, g') = delete_shadow_ref root.runner (utf8 "ai-remote") other g in
            rw e (delete_dead-keeps live refs _ g' h ∙ delete_other other g (different other e))
      ]
    where
      different :
          (other : Bytes)
          → is_dead namespace user root.repo_name live other ≡ true
          → str_eq other ref ≡ false
      different other e = elim (Bool-cases (str_eq other ref)) [
        | inr k ↦ k
        | inl k ↦
            let dead : is_dead namespace user root.repo_name live ref ≡ true =
              rw (sym ((str_eq_iff other ref).0 k)) e in
            cc
      ]

  abbrev listing_args : List Bytes
  listing_args = utf8 "for-each-ref" ∷ utf8 "--format=%(refname)" ∷ namespace ∷ []

  -- What is listed leaves the ref alone.
  listed-keeps : (g : G) → there (list_shadow_refs root.runner namespace g).1 ≡ there g
  unfolding list_shadow_refs
  listed-keeps g =
      ap there (then_pure (root.runner.run [] listing_args) split_lines g)
      ∙ git.lists (utf8 "--format=%(refname)") namespace g

  branches-keep : (g : G) → there (local_branches root.runner g).1 ≡ there g
  unfolding local_branches
  branches-keep g = git.lists (utf8 "--format=%(refname:short)") (utf8 "refs/heads") g

  gc_listed-keeps :
      (refs : Result (List Bytes)) (n : ℕ) (g : G)
      → is_dead namespace user root.repo_name (listed_branches (local_branches root.runner g).0) ref
        ≡ false
      → there (gc_listed namespace user root refs n g).1 ≡ there g
  unfolding gc_listed
  gc_listed-keeps (err e) n g alive = refl
  gc_listed-keeps (ok refs) n g alive =
      let (r, g') = local_branches root.runner g in
      delete_dead-keeps (listed_branches r) refs n g' alive ∙ branches-keep g

  -- A ref that gc does not take for dead is there behind gc exactly if it was there before.
  pub gc_root-alive :
      (n : ℕ) (g : G)
      → is_dead namespace user root.repo_name
          (listed_branches
            (local_branches root.runner (list_shadow_refs root.runner namespace g).1).0)
          ref
        ≡ false
      → there (gc_root namespace user root n g).1 ≡ there g
  unfolding gc_root
  gc_root-alive n g alive =
      let (refs, g') = list_shadow_refs root.runner namespace g in
      gc_listed-keeps refs n g' alive ∙ listed-keeps g
