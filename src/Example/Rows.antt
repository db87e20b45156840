-- ===== src/Example/Rows.antt =====
-- The shapes of the rows in the data that example/assets/js/custom-scripts.js and custom.js hand to
-- Morris.
use toyhoodle.Prelude.{ℕ, String, [], ◌∷◌}
use toyhoodle.Dashboard.Value.{Value, num, str, object}

-- `{y: …, a: …, b: …}`
abbrev pub series_row : String → ℕ → ℕ → Value
series_row y a b = object (("y", str y) ∷ ("a", num a) ∷ ("b", num b) ∷ [])

-- `{label: …, value: …}`
abbrev pub sale : String → ℕ → Value
sale label value = object (("label", str label) ∷ ("value", num value) ∷ [])

-- `{period: …, iphone: …, ipad: …, itouch: …}`; the first quarter has `ipad: null`.
abbrev pub quarter : String → ℕ → Value → ℕ → Value
quarter period iphone ipad itouch =
    object (
      ("period", str period)
      ∷ ("iphone", num iphone)
      ∷ ("ipad", ipad)
      ∷ ("itouch", num itouch)
      ∷ [])
