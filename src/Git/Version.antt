-- ===== src/Git/Version.antt =====
-- krennic/internal/gitxport/git.go: Version.
use director_orson_callan_kr.Base.{
  ℕ, ◌<◌, Bytes, ◌≡◌, refl, false, List, [], ◌∷◌, ◌++◌, ok, err, arith, utf8, split, ℤ, pos,
  is_space, All, split-append, split-one, Lacks, append-nil,
}
use director_orson_callan_kr.Ai.Prompts.{decimal}
use director_orson_callan_kr.Git.Tree.{Repository}
use director_orson_callan_kr.Git.Atoi.{
  atoi, fields, cut_at_space, non_empty, int_limit, AllDigits, decimal-AllDigits, atoi-decimal,
}

-- The numbers of the first two parts of a version, if there are two.
unfoldable pub two_numbers : List Bytes → ℤ × ℤ
two_numbers (major ∷ minor ∷ parts) = (atoi major, atoi minor)
two_numbers _ = (pos 0, pos 0)

-- The numbers of the third field.
unfoldable pub third_field : List Bytes → ℤ × ℤ
unfolding two_numbers split
third_field (git ∷ word ∷ version ∷ rest) = two_numbers (split b'.' version)
third_field _ = (pos 0, pos 0)

unfoldable pub version : Repository → ℤ × ℤ
unfolding third_field fields
version repo = elim (repo.run (utf8 "version" ∷ [])) [
  | ok out ↦ third_field (fields out)
  | err e ↦ (pos 0, pos 0)
]

-- No byte of white space.
abbrev pub IsWord : Bytes → Type 0
IsWord = All (λ c. is_space c ≡ false)

-- Nothing, or a text that begins with the byte.
abbrev pub BeginsWith : ℕ → Bytes → Type 0
BeginsWith b [] = Unit
BeginsWith b (c ∷ s) = c ≡ b

IsWord-append : (s t : Bytes) → IsWord s → IsWord t → IsWord (s ++ t)
IsWord-append [] t h k = k
IsWord-append (c ∷ s) t h k = (h.0, IsWord-append s t h.1 k)

AllDigits-IsWord : (s : Bytes) → AllDigits s → IsWord s
AllDigits-IsWord [] h = tt
AllDigits-IsWord (c ∷ s) h = (ground (arith, h.0), AllDigits-IsWord s h.1)

AllDigits-Lacks : (s : Bytes) → AllDigits s → Lacks b'.' s
AllDigits-Lacks [] h = tt
AllDigits-Lacks (c ∷ s) h = (λ e. ground (arith, h.0, e), AllDigits-Lacks s h.1)

-- A word is cut off at the white space behind it.
cut-word :
    (w rest : Bytes)
    → IsWord w
    → BeginsWith b' ' rest
    → (more : List Bytes) × (cut_at_space (w ++ rest) ≡ w ∷ more)
unfolding cut_at_space
cut-word [] [] h k = ([], refl)
cut-word [] (c ∷ rest) h k = (cut_at_space rest, rw k refl)
cut-word (c ∷ w) rest h k = let (more, e) = cut-word w rest h.1 k in (more, rw (e, h.0) refl)

non_empty-append :
    (s t : Bytes) (c : ℕ) (ps : List Bytes)
    → non_empty ((s ++ (c ∷ t)) ∷ ps) ≡ (s ++ (c ∷ t)) ∷ non_empty ps
unfolding non_empty
non_empty-append [] t c ps = refl
non_empty-append (d ∷ s) t c ps = refl

fields-version :
    (s t note : Bytes) (c : ℕ)
    → IsWord (s ++ (c ∷ t))
    → BeginsWith b' ' note
    → (more : List Bytes) × (fields (utf8 "git version " ++ ((s ++ (c ∷ t)) ++ note))
        ≡ utf8 "git" ∷ utf8 "version" ∷ (s ++ (c ∷ t)) ∷ more)
unfolding fields cut_at_space non_empty
fields-version s t note c h k =
    let (more, e) = cut-word (s ++ (c ∷ t)) note h k in
    (non_empty more, rw (e, non_empty-append) refl)

split-two :
    (major minor patch : Bytes)
    → AllDigits major
    → AllDigits minor
    → BeginsWith b'.' patch
    → (more : List Bytes) × (split b'.' (major ++ (b'.' ∷ (minor ++ patch))) ≡ major ∷ minor ∷ more)
split-two major minor [] a b k = (
  [],
  rw
      (
        split-append,
        split-one b'.' major (AllDigits-Lacks major a),
        append-nil,
        split-one b'.' minor (AllDigits-Lacks minor b),
      )
      refl,
)
split-two major minor (c ∷ patch) a b k = (
  split b'.' patch,
  rw
      (
        k,
        split-append,
        split-append,
        split-one b'.' major (AllDigits-Lacks major a),
        split-one b'.' minor (AllDigits-Lacks minor b),
      )
      refl,
)

version-ok :
    (repo : Repository) (out : Bytes)
    → repo.run (utf8 "version" ∷ []) ≡ ok out
    → version repo ≡ third_field (fields out)
unfolding version
version-ok repo out h = ground (arith, h)

third_field-two :
    (out git word text major minor : Bytes) (rest parts : List Bytes)
    → fields out ≡ git ∷ word ∷ text ∷ rest
    → split b'.' text ≡ major ∷ minor ∷ parts
    → third_field (fields out) ≡ (atoi major, atoi minor)
unfolding third_field two_numbers
third_field-two out git word text major minor rest parts h k = rw (h, third_field, k) refl

-- Version reads the two numbers that `git version` prints, whatever follows them: nothing or further
-- parts behind a dot, and then nothing or, behind a space, a note. They are less than 2^63.
pub version-decimal :
    (repo : Repository) (major minor : ℕ) (patch note : Bytes)
    → repo.run (utf8 "version" ∷ [])
      ≡ ok (utf8 "git version " ++ ((decimal major ++ (b'.' ∷ (decimal minor ++ patch))) ++ note))
    → major < int_limit
    → minor < int_limit
    → IsWord patch
    → BeginsWith b'.' patch
    → BeginsWith b' ' note
    → version repo ≡ (pos major, pos minor)
version-decimal repo major minor patch note printed small small' word dot space =
    let digits = decimal-AllDigits major in
    let digits' = decimal-AllDigits minor in
    let (more, f) =
      fields-version (decimal major) (decimal minor ++ patch) note b'.'
        (IsWord-append (decimal major) _ (AllDigits-IsWord _ digits)
          (refl, IsWord-append (decimal minor) patch (AllDigits-IsWord _ digits') word))
        space in
    let (parts, g) = split-two (decimal major) (decimal minor) patch digits digits' dot in
    rw
      (
        version-ok repo _ printed,
        third_field-two _ _ _ _ _ _ more parts f g,
        atoi-decimal major small,
        atoi-decimal minor small',
      )
      refl
