-- ===== src/Agent/Slug.antt =====
-- The slug of a user as a part of a ref, and what gc does to the refs of other users.
use director_orson_callan_kr.Base.{
  ℕ, Bytes, ◌≡◌, Option, none, some, List, [], ◌∷◌, arith, All, Lacks, str_eq, Bool-cases, inl, inr,
  trim_space, to_lower, trim_right_by, ◌==◌, Bool,
}
use director_orson_callan_kr.Git.Refs.{shadow_ref_name}
use director_orson_callan_kr.Git.Gc.{Root, gc_roots}
use director_orson_callan_kr.Git.GcKept.{IsRefStore}
use director_orson_callan_kr.Git.GcRoots.{IsForeign, gc_roots-foreign}
use director_orson_callan_kr.Agent.Startup.{dashed_runes, sanitize}
use director_orson_callan_kr.Agent.New.{Machine, behind_slash, variable_slug, named_slug, user_slug}

dashed_runes-Lacks : (s : List ℕ) → Lacks b'/' (dashed_runes s)
unfolding dashed_runes
dashed_runes-Lacks [] = tt
dashed_runes-Lacks (c ∷ s) = (λ e. ground (arith, e), dashed_runes-Lacks s)

sanitize-Lacks : (s : Bytes) → Lacks b'/' (sanitize s)
unfolding sanitize
sanitize-Lacks s = dashed_runes-Lacks (to_lower (trim_space s))

variable_slug-Lacks : (v : Bytes) → Lacks b'/' (variable_slug v)
unfolding variable_slug
variable_slug-Lacks v = elim (Bool-cases (str_eq v [])) [
  | inl e ↦ rw e (omega arith)
  | inr e ↦ rw e (sanitize-Lacks v)
]

named_slug-Lacks : (v : Bytes) (name : Option Bytes) → Lacks b'/' (named_slug v name)
unfolding named_slug
named_slug-Lacks v none = variable_slug-Lacks v
named_slug-Lacks v (some name) = elim (Bool-cases (str_eq name [])) [
  | inl e ↦ rw e (variable_slug-Lacks v)
  | inr e ↦ rw e (sanitize-Lacks (behind_slash name name))
]

-- Whatever the system says of the user, the slug has no slash.
pub user_slug-Lacks : (m : Machine) → Lacks b'/' (user_slug m)
unfolding user_slug
user_slug-Lacks m = named_slug-Lacks m.user_variable m.current_user

-- gc leaves the shadow refs of other users and of other repositories: when gc has been to every
-- repository, a ref that ShadowRefName has made for the user of another machine whose slug differs,
-- or for a repository of another base name than theirs, is there exactly if it was there before, over
-- what git documents of refs, and whatever command fails. The namespace does not end in a slash, and
-- the base names of the repositories have none.
pub gc_roots-others :
    {G : Type 0} (there : G → Bool) (m m' : Machine) (namespace repo branch : Bytes)
    (roots : List (Root G))
    → All
        (λ (root : Root G).
          IsRefStore root.runner there (shadow_ref_name namespace (user_slug m') repo branch))
        roots
    → trim_right_by (λ c. c == b'/') namespace ≡ namespace
    → Lacks b'/' repo
    → All (IsForeign namespace (user_slug m) (user_slug m') repo) roots
    → (n : ℕ) (g : G) → there (gc_roots namespace (user_slug m) roots n g).1 ≡ there g
gc_roots-others there m m' namespace repo branch roots git trimmed named foreign n g =
    gc_roots-foreign namespace (user_slug m) (user_slug m') repo there branch roots git trimmed
      (user_slug-Lacks m) (user_slug-Lacks m') named foreign n g
