-- ===== src/Ai/ProviderExamples.antt =====
-- Tests of the providers' answers and of the prices.
use director_orson_callan_kr.Base.{◌≡◌, refl, [], ◌∷◌, utf8, str_eq, index, has_prefix, to_lower}
use director_orson_callan_kr.Ai.Pricing.{lookup_price, is_within, dollars}
use director_orson_callan_kr.Ai.Providers.{text_blocks, truncate}

joins_texts :
    text_blocks
      ((utf8 "text", utf8 "a") ∷ (utf8 "thinking", utf8 "b") ∷ (utf8 "text", utf8 "c") ∷ [])
    ≡ utf8 "ac"
unfolding text_blocks str_eq
joins_texts = refl

cuts : truncate (utf8 "abcd") 3 ≡ utf8 "abc…"
unfolding truncate
cuts = refl

prices_flash : lookup_price (utf8 "Gemini-2.5-Flash") ≡ dollars (utf8 "0.075") (utf8 "0.30")
unfolding lookup_price is_within index has_prefix to_lower
prices_flash = refl
