-- ===== src/Git/Porcelain.antt =====
-- krennic/internal/gitxport/git.go: ChangedPaths on what git prints for one changed file.
use mathlib.Core.List.{reverse, reverse-append, reverse-reverse}
use director_orson_callan_kr.Base.{
  ℕ, Bytes, ◌≡◌, ap, ◌∙◌, false, none, Option, List, [], ◌∷◌, ◌++◌, arith, utf8, split-one, Lacks,
  index, drop, length-append, ◌≢◌, is_space, trim_left, trim_right_by, trim_space, if◌then◌else◌,
  Bool-cases, inl, inr,
}
use director_orson_callan_kr.Git.Tree.{split_lines}
use director_orson_callan_kr.Git.Refs.{changed_path, collect_paths, changed_paths}
use director_orson_callan_kr.Git.Process.{Spawn, repository, run_env, outcome}

reverse-last : (s : Bytes) (d : ℕ) → reverse (d ∷ reverse s) ≡ s ++ (d ∷ [])
reverse-last s d =
    reverse-append (d ∷ []) (reverse s) ∙ ap (λ (t : Bytes). t ++ (d ∷ [])) (reverse-reverse s)

-- A text between two bytes that are no white space keeps them, and loses the newline behind it.
trim_right_by-last :
    (s : Bytes) (d : ℕ)
    → is_space d ≡ false
    → trim_right_by is_space (s ++ (d ∷ [])) ≡ s ++ (d ∷ [])
unfolding trim_right_by trim_left
trim_right_by-last s d h = rw (reverse-append, h) (reverse-last s d)

trim_right_by-newline :
    (s : Bytes) (d : ℕ)
    → is_space d ≡ false
    → trim_right_by is_space (s ++ (d ∷ b'\n' ∷ [])) ≡ s ++ (d ∷ [])
unfolding trim_right_by trim_left
trim_right_by-newline s d h = rw (reverse-append, h) (reverse-last s d)

trim_space-fixed :
    (c : ℕ) (m : Bytes) (d : ℕ)
    → is_space c ≡ false
    → is_space d ≡ false
    → trim_space (c ∷ (m ++ (d ∷ []))) ≡ c ∷ (m ++ (d ∷ []))
unfolding trim_space trim_left
trim_space-fixed c m d h k = rw h (trim_right_by-last (c ∷ m) d k)

changed_path-trimmed :
    (ln : Bytes)
    → index (trim_space (drop 3 ln)) (utf8 " -> ") ≡ none
    → changed_path ln ≡ trim_space (drop 3 ln)
unfolding changed_path
changed_path-trimmed ln k = ground (arith, k)

changed_path-line :
    (ln p : Bytes) → trim_space (drop 3 ln) ≡ p → index p (utf8 " -> ") ≡ none → changed_path ln ≡ p
changed_path-line ln p h k =
    changed_path-trimmed ln (ap (λ (t : Bytes). index t (utf8 " -> ")) h ∙ k) ∙ h

space-ne-newline : ◌≢◌ {A = ℕ} 32 10
space-ne-newline q = omega arith

index-tail : (c : ℕ) (s p : Bytes) → index (c ∷ s) p ≡ none → index s p ≡ none
unfolding index
index-tail c s p h = ground (arith, h)

-- The line without its first blank, or with its first byte.
abbrev entry : ℕ → ℕ → Bytes → Bytes
entry x y path = if is_space x then y ∷ 32 ∷ path else x ∷ y ∷ 32 ∷ path

-- The path that ChangedPaths reads in the line.
abbrev pub read_path : ℕ → ℕ → Bytes → Bytes
read_path x c path = if is_space x then path else c ∷ path

module _ (x y c e d : ℕ) (m : Bytes) (no_blank : is_space y ≡ false) (first : is_space c ≡ false)
    (second : is_space e ≡ false) (last : is_space d ≡ false) where
  abbrev path : Bytes
  path = e ∷ (m ++ (d ∷ []))

  trim_space-printed :
      trim_space (x ∷ y ∷ 32 ∷ c ∷ e ∷ (m ++ (d ∷ b'\n' ∷ []))) ≡ entry x y (c ∷ path)
  unfolding trim_space trim_left
  trim_space-printed = elim (Bool-cases (is_space x)) [
    | inl blank ↦ rw (blank, no_blank) (trim_right_by-newline (y ∷ 32 ∷ c ∷ e ∷ m) d last)
    | inr letter ↦ rw letter (trim_right_by-newline (x ∷ y ∷ 32 ∷ c ∷ e ∷ m) d last)
  ]

  trim_space-entry : trim_space (entry x y (c ∷ path)) ≡ entry x y (c ∷ path)
  trim_space-entry = elim (Bool-cases (is_space x)) [
    | inl blank ↦ rw blank (trim_space-fixed y (32 ∷ c ∷ e ∷ m) d no_blank last)
    | inr letter ↦ rw letter (trim_space-fixed x (y ∷ 32 ∷ c ∷ e ∷ m) d letter last)
  ]

  changed_path-entry :
      index (c ∷ path) (utf8 " -> ") ≡ none
      → changed_path (entry x y (c ∷ path)) ≡ read_path x c path
  changed_path-entry h = elim (Bool-cases (is_space x)) [
    | inl blank ↦ rw blank (
        changed_path-line _ path (trim_space-fixed e m d second last)
          (index-tail c path (utf8 " -> ") h))
    | inr letter ↦
        rw letter (changed_path-line _ (c ∷ path) (trim_space-fixed c (e ∷ m) d first last) h)
  ]

  collect_paths-entry :
      index (c ∷ path) (utf8 " -> ") ≡ none
      → collect_paths (entry x y (c ∷ path) ∷ []) ≡ read_path x c path ∷ []
  unfolding collect_paths
  collect_paths-entry h = rw (changed_path-entry h) (ground (arith, length-append m (d ∷ [])))

  split_lines-entry :
      Lacks b'\n' (x ∷ y ∷ c ∷ path)
      → split_lines (entry x y (c ∷ path)) ≡ entry x y (c ∷ path) ∷ []
  unfolding split_lines
  split_lines-entry h = rw trim_space-entry (elim (Bool-cases (is_space x)) [
    | inl is_blank ↦
        rw is_blank (
          rw (split-one b'\n' (y ∷ 32 ∷ c ∷ path) (h.1.0, (space-ne-newline, h.1.1)))
            (ground arith))
    | inr letter ↦ rw letter (
        rw (split-one b'\n' (x ∷ y ∷ 32 ∷ c ∷ path) (h.0, (h.1.0, (space-ne-newline, h.1.1))))
          (ground arith))
  ])

abbrev status_args : List Bytes
status_args = utf8 "status" ∷ utf8 "--porcelain" ∷ utf8 "--untracked-files=all" ∷ []

-- ChangedPaths of a repository with one changed file, that git prints as two status letters, a blank
-- and the path: if the first status letter is a blank, as it is for a change that is not staged, the
-- path comes back without its first byte, since run trims the output; else the path comes back
-- whole. The path has at least three bytes, the first two and the last of which are no white space,
-- and no arrow; the second status letter is no blank; and no byte of the line is a newline.
pub changed_paths-entry :
    {G : Type 0} (spawn : Spawn G) (root : Bytes) (read_file : Bytes → Option Bytes) (g : G)
    (x y c e d : ℕ) (m : Bytes)
    → (spawn [] (utf8 "-C" ∷ root ∷ status_args) g).0 ≡ record {
      failure = none;
      stdout = x ∷ y ∷ 32 ∷ c ∷ e ∷ (m ++ (d ∷ b'\n' ∷ []));
      stderr = [];
    }
    → is_space y ≡ false
    → is_space c ≡ false
    → is_space e ≡ false
    → is_space d ≡ false
    → Lacks b'\n' (x ∷ y ∷ c ∷ e ∷ (m ++ (d ∷ [])))
    → index (c ∷ e ∷ (m ++ (d ∷ []))) (utf8 " -> ") ≡ none
    → changed_paths (repository spawn root read_file g) ≡ read_path x c (e ∷ (m ++ (d ∷ []))) ∷ []
unfolding changed_paths run_env outcome
changed_paths-entry spawn root read_file g x y c e d m printed no_blank first second last lines
      plain =
    rw
      (
        printed,
        trim_space-printed x y c e d m no_blank first second last,
        split_lines-entry x y c e d m no_blank first second last lines,
      )
      (collect_paths-entry x y c e d m no_blank first second last plain)
