-- ===== src/Git/Lines.antt =====
-- Splitting into lines and joining, and what the masking of a patch keeps.
use director_orson_callan_kr.Base.{
  ℕ, Bytes, ◌≡◌, ◌≢◌, refl, subst, ap, sym, ◌∙◌, Bool, true, false, ◌||◌, List, [], ◌∷◌, ◌++◌, map,
  arith, ◌==◌, if◌then◌else◌, All, Bool-cases, inl, inr, Lacks, utf8, split, join,
}
use director_orson_callan_kr.Redact.{Regexp, Redactor, mask_line}
use director_orson_callan_kr.Git.Diff.{mask_patch_line, mask_patch}

abbrev pub newline : ℕ
newline = b'\n'

-- One byte in front of a split text.
abbrev add_byte : ℕ → List Bytes → List Bytes
add_byte c l = elim l [ [] ↦ [] ∷ [] | p ∷ ps ↦ if c == newline then [] ∷ p ∷ ps else (c ∷ p) ∷ ps ]

join-cons :
    (c : ℕ) (p : Bytes) (ps : List Bytes)
    → join ((c ∷ p) ∷ ps) (utf8 "\n") ≡ c ∷ join (p ∷ ps) (utf8 "\n")
unfolding join
join-cons c p [] = refl
join-cons c p (q ∷ ps) = refl

split-nonempty : (s : Bytes) → (p : Bytes) × (ps : List Bytes) × (split newline s ≡ p ∷ ps)
unfolding split
split-nonempty [] = ([], [], refl)
split-nonempty (c ∷ s) =
    let (p, ps, e) = split-nonempty s in
    elim (Bool-cases (c == newline)) [
      | inl h ↦ ([], p ∷ ps, rw (e, h) refl)
      | inr h ↦ (c ∷ p, ps, rw (e, h) refl)
    ]

join-add_byte :
    (c : ℕ) (p : Bytes) (ps : List Bytes)
    → join (add_byte c (p ∷ ps)) (utf8 "\n") ≡ c ∷ join (p ∷ ps) (utf8 "\n")
unfolding join
join-add_byte c p ps = elim (Bool-cases (c == newline)) [
  | inl h ↦ rw h (ground (arith, h))
  | inr h ↦ rw h (join-cons c p ps)
]

-- Joining the lines of a text gives the text.
pub join-split : (s : Bytes) → join (split newline s) (utf8 "\n") ≡ s
unfolding join split
join-split [] = refl
join-split (c ∷ s) =
    let (p, ps, e) = split-nonempty s in
    subst (λ (l : List Bytes). join l (utf8 "\n") ≡ s → join (add_byte c l) (utf8 "\n") ≡ c ∷ s)
      (sym e) (λ h. join-add_byte c p ps ∙ ap (λ t. c ∷ t) h) (join-split s)

map-mask_patch_line :
    (mask : Bytes → Bytes) (ls : List Bytes)
    → ((ln : Bytes) → mask ln ≡ ln)
    → map (mask_patch_line mask) ls ≡ ls
unfolding mask_patch_line
map-mask_patch_line mask [] h = refl
map-mask_patch_line mask ([] ∷ ls) h = ap (λ t. [] ∷ t) (map-mask_patch_line mask ls h)
map-mask_patch_line mask ((c ∷ l) ∷ ls) h = ground (arith, h l, map-mask_patch_line mask ls h)

-- A mask that changes no line, as that of a Redactor which does not scan, changes no patch.
mask_patch-unscanned :
    (re : Regexp) (r : Redactor) (patch : Bytes)
    → r.scan_regex ≡ false
    → mask_patch patch (λ s. (mask_line re r s).0) ≡ patch
unfolding mask_patch mask_line
mask_patch-unscanned re r patch h =
    ap (λ l. join l (utf8 "\n")) (map-mask_patch_line _ (split newline patch) (λ ln. rw h refl))
    ∙ join-split patch

not_newline : (c : ℕ) → c ≢ newline → (c == newline) ≡ false
not_newline c h = ground arith

is_not_newline : (c : ℕ) → (c == newline) ≡ false → c ≢ newline
is_not_newline c h = ground arith

if-Lacks :
    (b : Bool) (s t : Bytes)
    → Lacks newline s
    → Lacks newline t
    → Lacks newline (if b then s else t)
if-Lacks true s t h k = h
if-Lacks false s t h k = k

split-line :
    (p t : Bytes) → Lacks newline p → split newline (p ++ newline ∷ t) ≡ p ∷ split newline t
unfolding split
split-line [] t h = let (p, ps, e) = split-nonempty t in rw e refl
split-line (c ∷ p) t h = rw (split-line p t h.1, not_newline c h.0) refl

split-last : (p : Bytes) → Lacks newline p → split newline p ≡ p ∷ []
unfolding split
split-last [] h = refl
split-last (c ∷ p) h = rw (split-last p h.1, not_newline c h.0) refl

-- Splitting what was joined of lines without a newline gives the lines.
split-join :
    (p : Bytes) (ps : List Bytes)
    → All (Lacks newline) (p ∷ ps)
    → split newline (join (p ∷ ps) (utf8 "\n")) ≡ p ∷ ps
unfolding join
split-join p [] h = split-last p h.0
split-join p (q ∷ ps) h =
    split-line p (join (q ∷ ps) (utf8 "\n")) h.0 ∙ ap (λ t. p ∷ t) (split-join q ps h.1)

split-Lacks : (s : Bytes) → All (Lacks newline) (split newline s)
unfolding split
split-Lacks [] = (tt, tt)
split-Lacks (c ∷ s) =
    let (p, ps, e) = split-nonempty s in
    let k = subst (All (Lacks newline)) e (split-Lacks s) in
    elim (Bool-cases (c == newline)) [
      | inl h ↦ rw (e, h) (tt, k)
      | inr h ↦ rw (e, h) ((is_not_newline c h, k.0), k.1)
    ]

mask_patch_line-Lacks :
    (mask : Bytes → Bytes) (ls : List Bytes)
    → ((ln : Bytes) → Lacks newline ln → Lacks newline (mask ln))
    → All (Lacks newline) ls
    → All (Lacks newline) (map (mask_patch_line mask) ls)
unfolding mask_patch_line
mask_patch_line-Lacks mask [] h k = tt
mask_patch_line-Lacks mask ([] ∷ ls) h k = (tt, mask_patch_line-Lacks mask ls h k.1)
mask_patch_line-Lacks mask ((c ∷ l) ∷ ls) h k = (
  if-Lacks (c == b'+' || (c == b'-' || c == b' ')) (c ∷ mask l) (c ∷ l) (k.0.0, h l k.0.1) k.0,
  mask_patch_line-Lacks mask ls h k.1,
)

-- Masking a patch masks its lines one by one and keeps their number: a mask that writes no newline
-- into a line makes the patch whose lines are the old ones, each masked behind its sign.
split-mask_patch :
    (mask : Bytes → Bytes) (patch : Bytes)
    → ((ln : Bytes) → Lacks newline ln → Lacks newline (mask ln))
    → split newline (mask_patch patch mask) ≡ map (mask_patch_line mask) (split newline patch)
unfolding mask_patch
split-mask_patch mask patch h =
    let (p, ps, e) = split-nonempty patch in
    subst
      (λ (l : List Bytes).
        All (Lacks newline) l
        → split newline (join (map (mask_patch_line mask) l) (utf8 "\n"))
          ≡ map (mask_patch_line mask) l)
      (sym e)
      (λ k.
        split-join (mask_patch_line mask p) (map (mask_patch_line mask) ps)
          (mask_patch_line-Lacks mask (p ∷ ps) h k))
      (split-Lacks patch)
