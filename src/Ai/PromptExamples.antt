-- ===== src/Ai/PromptExamples.antt =====
-- The bound on prompts at two hunks.
use director_orson_callan_kr.Base.{◌+◌, ◌≤◌, List, [], ◌∷◌, length, utf8}
use director_orson_callan_kr.Model.{Hunk}
use director_orson_callan_kr.Ai.Prompts.{omitted_line, write_hunks}
use director_orson_callan_kr.Ai.PromptSize.{length-write_hunks}

abbrev hunk : Hunk
hunk = record {
  path = utf8 "m.go";
  language = utf8 "go";
  change_type = utf8 "modified";
  function_context = utf8 "main";
  patch = utf8 "+x\n";
}

abbrev two_hunks : List Hunk
two_hunks = hunk ∷ hunk ∷ []

length-write_hunks_example :
    length (write_hunks two_hunks) ≤ 24000 + length (omitted_line (length two_hunks))
length-write_hunks_example = length-write_hunks two_hunks
