-- ===== src/Ai/PromptSize.antt =====
-- How long the hunks of a prompt are.
use director_orson_callan_kr.Base.{
  ℕ, ◌+◌, ◌≤◌, Bytes, ◌≡◌, false, Bool-cases, inl, inr, List, [], ◌∷◌, ◌++◌, arith, ltb, length,
  length-append,
}
use director_orson_callan_kr.Model.{Hunk}
use director_orson_callan_kr.Ai.Prompts.{
  max_prompt_bytes, hunk_block, omitted_line, write_hunks_from, write_hunks,
}

length-written :
    (block rest : Bytes) (written bound : ℕ)
    → length rest + (written + length block) ≤ bound
    → length (block ++ rest) + written ≤ bound
length-written block rest written bound h = omega (arith, h, length-append block rest)

not_over : (m n : ℕ) → ltb m n ≡ false → n ≤ m
not_over m n h = ground arith

length-write_hunks_from :
    (total written : ℕ) (hs : List Hunk)
    → written ≤ max_prompt_bytes
    → length (write_hunks_from total written hs) + written
      ≤ max_prompt_bytes + length (omitted_line total)
unfolding write_hunks_from
length-write_hunks_from total written [] w = omega (arith, w)
length-write_hunks_from total written (h ∷ hs) w =
    elim (Bool-cases (ltb max_prompt_bytes (written + length (hunk_block h)))) [
      | inl e ↦ rw e (omega (arith, w))
      | inr e ↦ rw e (
          length-written (hunk_block h) _ written _ (
            length-write_hunks_from total (written + length (hunk_block h)) hs
              (not_over max_prompt_bytes _ e)))
    ]

-- The hunks of a prompt take at most 24000 bytes, and the line on those that are left out comes on
-- top.
pub length-write_hunks :
    (hs : List Hunk) → length (write_hunks hs) ≤ 24000 + length (omitted_line (length hs))
unfolding write_hunks
length-write_hunks hs = omega (arith, length-write_hunks_from (length hs) 0 hs (omega arith))
