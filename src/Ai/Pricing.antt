-- ===== src/Ai/Pricing.antt =====
-- krennic/internal/ai/pricing.go: the prices of the models. A price is the text of its literal; what
-- float64 makes of a literal and its arithmetic are parameters.
use director_orson_callan_kr.Base.{
  Bytes, Bool, true, false, none, some, utf8, index, to_lower, ℤ, if◌then◌else◌,
}
use director_orson_callan_kr.Model.{Float64}

-- USD for 1M tokens.
pub record Price : Type 0 where
  pub price_in : Bytes
  pub price_out : Bytes

-- Arithmetic of float64: literals, int to float64, and the operations.
pub record Arithmetic : Type 0 where
  pub literal : Bytes → Float64
  pub of_int : ℤ → Float64
  pub plus : Float64 → Float64 → Float64
  pub times : Float64 → Float64 → Float64
  pub divided : Float64 → Float64 → Float64
  pub is_zero : Float64 → Bool

-- strings.Contains
unfoldable pub is_within : Bytes → Bytes → Bool
unfolding index
is_within s part = elim (index s part) [ none ↦ false | some i ↦ true ]

abbrev pub dollars : Bytes → Bytes → Price
dollars i o = record { price_in = i; price_out = o }

unfoldable pub lookup_price : Bytes → Price
unfolding is_within to_lower
lookup_price model_name =
    let m = to_lower model_name in
    if is_within m (utf8 "haiku")
    then dollars (utf8 "0.80") (utf8 "4.00")
    else if is_within m (utf8 "sonnet")
    then dollars (utf8 "3.00") (utf8 "15.00")
    else if is_within m (utf8 "opus")
    then dollars (utf8 "15.00") (utf8 "75.00")
    else if is_within m (utf8 "flash")
    then dollars (utf8 "0.075") (utf8 "0.30")
    else if is_within m (utf8 "gemini")
    then dollars (utf8 "1.25") (utf8 "5.00")
    else dollars (utf8 "0") (utf8 "0")

unfoldable pub cost_usd : Arithmetic → Bytes → ℤ → ℤ → Float64
unfolding lookup_price
cost_usd f model_name tokens_in tokens_out =
    let p = lookup_price model_name in
    let million = f.literal (utf8 "1e6") in
    f.plus (f.times (f.divided (f.of_int tokens_in) million) (f.literal p.price_in))
      (f.times (f.divided (f.of_int tokens_out) million) (f.literal p.price_out))
