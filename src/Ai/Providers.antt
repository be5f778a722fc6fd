-- ===== src/Ai/Providers.antt =====
-- krennic/internal/ai/anthropic.go, gemini.go and claudecli.go: the Complete functions, over the HTTP
-- client, the process runner and the JSON codec.
use director_orson_callan_kr.Base.{
  ℕ, Bytes, List, [], ◌∷◌, ◌++◌, Result, ok, err, str_eq, utf8, leb, length, take, trim_space, ◌==◌,
  ℤ, pos, if◌then◌else◌,
}
use director_orson_callan_kr.Model.{Float64}
use director_orson_callan_kr.Ai.Types.{CompletionRequest, CompletionResponse}
use director_orson_callan_kr.Ai.Prompts.{decimal}
use director_orson_callan_kr.Ai.Pricing.{Arithmetic, cost_usd}

pub record HttpRequest : Type 0 where
  pub url : Bytes
  pub headers : List (Bytes × Bytes)
  pub body : Bytes

-- The counts of tokens that an answer carries, zero where it has none.
pub record Usage : Type 0 where
  pub input : ℤ
  pub output : ℤ

-- A content block of Anthropic: its type and its text.
pub record AnthropicAnswer : Type 0 where
  pub content : List (Bytes × Bytes)
  pub usage : Usage

-- The texts of the parts of each candidate of Gemini.
pub record GeminiAnswer : Type 0 where
  pub candidates : List (List Bytes)
  pub usage : Usage

pub record CliAnswer : Type 0 where
  pub result : Bytes
  pub total_cost_usd : Float64
  pub usage : Usage

-- The JSON codec, http.NewRequest, the HTTP client, the escapes of package net/url, and the run of
-- the `claude` process: its output, or its error and what it printed.
pub record Outside : Type 0 where
  pub floats : Arithmetic
  pub anthropic_body : CompletionRequest → Bytes
  pub gemini_body : CompletionRequest → Bytes
  pub decode_anthropic : Bytes → Result AnthropicAnswer
  pub decode_gemini : Bytes → Result GeminiAnswer
  pub decode_cli : Bytes → Result CliAnswer
  pub new_request : HttpRequest → Result HttpRequest
  pub do_request : HttpRequest → Result (ℕ × Bytes)
  pub path_escape : Bytes → Bytes
  pub query_escape : Bytes → Bytes
  pub run : Bytes → List Bytes → Result Bytes
  pub stderr : Bytes → List Bytes → Bytes

unfoldable pub truncate : Bytes → ℕ → Bytes
truncate s n = if leb (length s) n then s else take n s ++ utf8 "…"

-- The texts of the blocks of type "text".
unfoldable pub text_blocks : List (Bytes × Bytes) → Bytes
text_blocks [] = []
text_blocks ((kind, text) ∷ blocks) =
    let rest = text_blocks blocks in if str_eq kind (utf8 "text") then text ++ rest else rest

unfoldable pub concatenated : List Bytes → Bytes
concatenated [] = []
concatenated (s ∷ ss) = s ++ concatenated ss

-- The parts of the first candidate.
unfoldable pub first_candidate : List (List Bytes) → Bytes
unfolding concatenated
first_candidate [] = []
first_candidate (parts ∷ rest) = concatenated parts

abbrev pub prefixed {ℓ} : {A : Type ℓ} → Bytes → Result A → Result A
prefixed prefix (ok a) = ok a
prefixed prefix (err e) = err (prefix ++ e)

module _ (o : Outside) where
  -- A text, with the tokens of the answer and their cost.
  unfoldable pub response : Bytes → Bytes → Usage → CompletionResponse
  unfolding cost_usd
  response model text u = record {
    text = text;
    tokens = record { tokens_in = u.input; tokens_out = u.output };
    cost_usd = cost_usd o.floats model u.input u.output;
  }

  -- The body of an answer whose status is 200.
  unfoldable pub body_of : Bytes → ℕ × Bytes → Result Bytes
  unfolding truncate decimal
  body_of who (status, reply) =
      if status == 200
      then ok reply
      else err (who ++ (utf8 " " ++ (decimal status ++ (utf8 ": " ++ truncate reply 300))))

  -- A request, its answer, and the body of the answer.
  unfoldable pub fetch : Bytes → HttpRequest → Result Bytes
  unfolding body_of
  fetch who req = elim (o.new_request req) [
    | err e ↦ err e
    | ok r ↦ elim (o.do_request r) [ err e ↦ err e | ok answer ↦ body_of who answer ]
  ]

  unfoldable pub anthropic_request : Bytes → Bytes → CompletionRequest → HttpRequest
  anthropic_request base key req = record {
    url = base ++ utf8 "/v1/messages";
    headers =
        (utf8 "content-type", utf8 "application/json")
        ∷ (utf8 "x-api-key", key)
        ∷ (utf8 "anthropic-version", utf8 "2023-06-01")
        ∷ [];
    body = o.anthropic_body req;
  }

  unfoldable pub anthropic_complete : Bytes → Bytes → CompletionRequest → Result CompletionResponse
  unfolding fetch anthropic_request text_blocks response
  anthropic_complete base key req =
      elim (fetch (utf8 "anthropic") (anthropic_request base key req)) [
        | err e ↦ err e
        | ok reply ↦
            elim (prefixed (utf8 "decode anthropic response: ") (o.decode_anthropic reply)) [
              | err e ↦ err e
              | ok out ↦ ok (response req.model (text_blocks out.content) out.usage)
            ]
      ]

  unfoldable pub gemini_request : Bytes → Bytes → CompletionRequest → HttpRequest
  gemini_request base key req = record {
    url =
        base
        ++ (utf8 "/v1beta/models/"
            ++ (o.path_escape req.model ++ (utf8 ":generateContent?key=" ++ o.query_escape key)));
    headers = (utf8 "content-type", utf8 "application/json") ∷ [];
    body = o.gemini_body req;
  }

  unfoldable pub gemini_complete : Bytes → Bytes → CompletionRequest → Result CompletionResponse
  unfolding fetch gemini_request first_candidate response
  gemini_complete base key req = elim (fetch (utf8 "gemini") (gemini_request base key req)) [
    | err e ↦ err e
    | ok reply ↦ elim (prefixed (utf8 "decode gemini response: ") (o.decode_gemini reply)) [
      | err e ↦ err e
      | ok out ↦ ok (response req.model (first_candidate out.candidates) out.usage)
    ]
  ]

  unfoldable pub bin : Bytes → Bytes
  bin configured = if str_eq configured [] then utf8 "claude" else configured

  unfoldable pub cli_args : CompletionRequest → List Bytes
  cli_args req =
      (utf8 "-p"
        ∷ req.user
        ∷ utf8 "--output-format"
        ∷ utf8 "json"
        ∷ utf8 "--allowedTools"
        ∷ utf8 "Read"
        ∷ utf8 "--permission-mode"
        ∷ utf8 "dontAsk"
        ∷ [])
      ++ ((if str_eq req.system [] then [] else utf8 "--append-system-prompt" ∷ req.system ∷ [])
          ++ (if str_eq req.model [] then [] else utf8 "--model" ∷ req.model ∷ []))

  -- The envelope of an answer, or the raw text without tokens and cost.
  unfoldable pub cli_response : CompletionRequest → Bytes → Result CliAnswer → CompletionResponse
  unfolding response
  cli_response req text (err e) = record {
    text = text;
    tokens = record { tokens_in = pos 0; tokens_out = pos 0 };
    cost_usd = o.floats.literal (utf8 "0");
  }
  cli_response req text (ok env) =
      let priced = response req.model env.result env.usage in
      if str_eq env.result []
      then record {
        text = text;
        tokens = record { tokens_in = pos 0; tokens_out = pos 0 };
        cost_usd = o.floats.literal (utf8 "0");
      }
      else if o.floats.is_zero env.total_cost_usd
      then priced
      else record priced { cost_usd = env.total_cost_usd }

  unfoldable pub cli_complete : Bytes → CompletionRequest → Result CompletionResponse
  unfolding bin cli_args cli_response truncate trim_space
  cli_complete configured req = elim (o.run (bin configured) (cli_args req)) [
    | err e ↦ err (
        utf8 "claude cli: "
        ++ (e
            ++ (utf8 ": " ++ truncate (trim_space (o.stderr (bin configured) (cli_args req))) 300)))
    | ok out ↦ ok (cli_response req out (o.decode_cli out))
  ]
