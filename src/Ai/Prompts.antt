-- ===== src/Ai/Prompts.antt =====
-- krennic/internal/ai/prompts.go: what is sent to a provider.
use Prim.Native.Nat.{◌/◌, ◌%◌}
use director_orson_callan_kr.Base.{
  ℕ, zero, suc, ◌+◌, Bytes, Option, none, some, List, [], ◌∷◌, ◌++◌, length, ltb, ◌==◌, str_eq,
  join, trim_right_by, utf8, if◌then◌else◌,
}
use director_orson_callan_kr.Model.{Hunk, ChangeEvent, TriageResult}

abbrev pub max_prompt_bytes : ℕ
max_prompt_bytes = 24000

-- `%d` of a natural number. A number is below the fuel that it is given, so the fuel suffices.
unfoldable pub digits : ℕ → ℕ → Bytes → Bytes
digits zero n out = out
digits (suc fuel) n out =
    let d = (48 + n % 10) ∷ out in let rest = digits fuel (n / 10) d in if ltb n 10 then d else rest

unfoldable pub decimal : ℕ → Bytes
unfolding digits
decimal n = digits (suc n) n []

unfoldable pub func_suffix : Bytes → Bytes
func_suffix fn = if str_eq fn [] then [] else utf8 " @ " ++ fn

-- The block of one hunk.
unfoldable pub hunk_block : Hunk → Bytes
unfolding func_suffix
hunk_block h =
    utf8 "--- "
    ++ (h.path
        ++ (utf8 " ("
            ++ (h.change_type
                ++ (func_suffix h.function_context
                    ++ (utf8 ")\n" ++ (trim_right_by (λ c. c == b'\n') h.patch ++ utf8 "\n"))))))

-- The line that stands for the hunks left out: it counts `total`, all the hunks of the change.
unfoldable pub omitted_line : ℕ → Bytes
unfolding decimal
omitted_line total = utf8 "... [zkráceno, " ++ (decimal total ++ utf8 " dalších hunků vynecháno]\n")

-- The loop of writeHunks, from the variable `written`.
unfoldable pub write_hunks_from : ℕ → ℕ → List Hunk → Bytes
unfolding hunk_block omitted_line
write_hunks_from total written [] = []
write_hunks_from total written (h ∷ hs) =
    let block = hunk_block h in
    let rest = block ++ write_hunks_from total (written + length block) hs in
    if ltb max_prompt_bytes (written + length block) then omitted_line total else rest

unfoldable pub write_hunks : List Hunk → Bytes
unfolding write_hunks_from
write_hunks hunks = write_hunks_from (length hunks) 0 hunks

redacted_line : List Bytes → Bytes
redacted_line [] = []
redacted_line (p ∷ ps) = utf8 "redacted_paths=" ++ (join (p ∷ ps) (utf8 ",") ++ utf8 "\n")

unfoldable pub render_event_prompt : ChangeEvent → Bytes
unfolding redacted_line write_hunks decimal
render_event_prompt ev =
    utf8 "<metadata>\nrepo="
    ++ (ev.repo.name
        ++ (utf8 "\nbranch="
            ++ (ev.repo.branch
                ++ (utf8 "\nbase_sha="
                    ++ (ev.repo.head_sha
                        ++ (utf8 "\nfiles_changed="
                            ++ (decimal ev.summary.files_changed
                                ++ (utf8 "\nlines_added="
                                    ++ (decimal ev.summary.lines_added
                                        ++ (utf8 "\nlines_removed="
                                            ++ (decimal ev.summary.lines_removed
                                                ++ (utf8 "\nlanguages="
                                                    ++ (join ev.summary.languages (utf8 ",")
                                                        ++ (utf8 "\n"
                                                            ++ (redacted_line
                                                            ev.summary.redacted_paths
                                                            ++ (utf8
                                                            "</metadata>\n\n<changed_files>\n"
                                                            ++ (write_hunks ev.diff.hunks
                                                            ++ utf8
                                                            "</changed_files>\n")))))))))))))))))

triage_header : Option TriageResult → Bytes
triage_header none = []
triage_header (some tr) =
    utf8 "<triage>\nrelevance="
    ++ (tr.relevance
        ++ (utf8 "\ncategories="
            ++ (join tr.categories (utf8 ",")
                ++ (utf8 "\nreason=" ++ (tr.reason ++ utf8 "\n</triage>\n\n")))))

unfoldable pub render_review_prompt : ChangeEvent → Option TriageResult → Bytes
unfolding triage_header
render_review_prompt ev tr = triage_header tr ++ render_event_prompt ev
