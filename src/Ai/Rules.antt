-- ===== src/Ai/Rules.antt =====
-- krennic/internal/ai/ai.go: which changes are escalated, and the JSON object of an answer.
use director_orson_callan_kr.Base.{
  ◌+◌, Bytes, Bool, true, false, ◌&&◌, ◌||◌, not, Option, none, some, List, [], ◌∷◌, ◌++◌, any,
  is_positive, to_nat, Result, ok, err, ltb, leb, drop, take, index, last_index, trim_space, str_eq,
  equal_fold, utf8, if◌then◌else◌,
}
use director_orson_callan_kr.Model.{ChangeEvent, TriageResult, trivial, minor, notable, risky}
use director_orson_callan_kr.Config.Defs.{RoutingConfig}

unfoldable pub is_pure_style : TriageResult → Bool
is_pure_style tr = elim tr.categories [
  | [] ↦ false
  | c ∷ cs ↦ not (any (λ d. not (equal_fold d (utf8 "style"))) (c ∷ cs))
]

-- Some category is one of the configured ones, up to case.
unfoldable pub wants_category : RoutingConfig → List Bytes → Bool
wants_category routing categories =
    any (λ c. any (λ want. equal_fold c want) routing.escalate_categories) categories

unfoldable pub is_large : RoutingConfig → ChangeEvent → Bool
is_large routing ev =
    is_positive routing.escalate_line_threshold
    && ltb (to_nat routing.escalate_line_threshold)
        (ev.summary.lines_added + ev.summary.lines_removed)

-- shouldEscalate
unfoldable pub should_escalate : RoutingConfig → ChangeEvent → TriageResult → Bool
should_escalate routing ev tr =
    if str_eq ev.routing_hints.force_stage (utf8 "review")
    then true
    else if str_eq ev.routing_hints.force_stage (utf8 "triage")
    then false
    else if str_eq tr.relevance trivial
    then false
    else if tr.escalate || (str_eq tr.relevance notable || str_eq tr.relevance risky)
    then true
    else if wants_category routing tr.categories
    then true
    else if is_large routing ev && not (is_pure_style tr)
    then true
    else false

-- The object that parseJSON hands to the decoder: from the first `{` to the last `}`.
unfoldable pub json_object : Bytes → Option Bytes
unfolding last_index
json_object text =
    let s = trim_space text in
    elim (index s (utf8 "{")) [
      | none ↦ none
      | some start ↦ (elim (last_index b'}' s) [
        | none ↦ none
        | some last ↦ if leb last start then none else some (drop start (take (last + 1) s))
      ])
    ]

unfoldable pub parse_json : {A : Type 0} → (Bytes → Result A) → Bytes → Result A
parse_json decode text = elim (json_object text) [
  | none ↦ err (utf8 "no JSON object found in response")
  | some s ↦ decode s
]

-- The prefix that fmt.Errorf puts before an error.
unfoldable pub wrap : {A : Type 0} → Bytes → Result A → Result A
wrap prefix (ok a) = ok a
wrap prefix (err e) = err (prefix ++ (utf8 ": " ++ e))

abbrev pub or_minor : Bytes → Bytes
or_minor r = if str_eq r [] then minor else r

abbrev pub or_comment : Bytes → Bytes
or_comment v = if str_eq v [] then utf8 "comment" else v
