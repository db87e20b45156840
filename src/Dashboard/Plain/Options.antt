-- ===== src/Dashboard/Plain/Options.antt =====
-- The options that assets/js/custom.js hands to Morris, one object for each chart.
use toyhoodle.Prelude.{true, [], ◌∷◌}
use toyhoodle.Dashboard.Value.{Value, null, bool, num, str, array, object, strs}

-- `Morris.Bar`
unfoldable pub plain_bar : Value
plain_bar = object (
    ("element", str "morris-bar-chart")
    ∷ (
      "data",
      array (
          (object (("y", str "2006") ∷ ("a", num 100) ∷ ("b", num 90) ∷ []))
          ∷ (object (("y", str "2007") ∷ ("a", num 75) ∷ ("b", num 65) ∷ []))
          ∷ (object (("y", str "2008") ∷ ("a", num 50) ∷ ("b", num 40) ∷ []))
          ∷ (object (("y", str "2009") ∷ ("a", num 75) ∷ ("b", num 65) ∷ []))
          ∷ (object (("y", str "2010") ∷ ("a", num 50) ∷ ("b", num 40) ∷ []))
          ∷ (object (("y", str "2011") ∷ ("a", num 75) ∷ ("b", num 65) ∷ []))
          ∷ (object (("y", str "2012") ∷ ("a", num 100) ∷ ("b", num 90) ∷ []))
          ∷ []),
    )
    ∷ ("xkey", str "y")
    ∷ ("ykeys", strs ("a" ∷ "b" ∷ []))
    ∷ ("labels", strs ("Series A" ∷ "Series B" ∷ []))
    ∷ ("hideHover", str "auto")
    ∷ ("resize", bool true)
    ∷ [])

-- `Morris.Donut`
unfoldable pub plain_donut : Value
plain_donut = object (
    ("element", str "morris-donut-chart")
    ∷ (
      "data",
      array (
          (object (("label", str "Download Sales") ∷ ("value", num 12) ∷ []))
          ∷ (object (("label", str "In-Store Sales") ∷ ("value", num 30) ∷ []))
          ∷ (object (("label", str "Mail-Order Sales") ∷ ("value", num 20) ∷ []))
          ∷ []),
    )
    ∷ ("resize", bool true)
    ∷ [])

-- `Morris.Area`
unfoldable pub plain_area : Value
plain_area = object (
    ("element", str "morris-area-chart")
    ∷ (
      "data",
      array (
          (object (
            ("period", str "2010 Q1")
            ∷ ("iphone", num 2666)
            ∷ ("ipad", null)
            ∷ ("itouch", num 2647)
            ∷ []))
          ∷ (object (
              ("period", str "2010 Q2")
              ∷ ("iphone", num 2778)
              ∷ ("ipad", num 2294)
              ∷ ("itouch", num 2441)
              ∷ []))
          ∷ (object (
              ("period", str "2010 Q3")
              ∷ ("iphone", num 4912)
              ∷ ("ipad", num 1969)
              ∷ ("itouch", num 2501)
              ∷ []))
          ∷ (object (
              ("period", str "2010 Q4")
              ∷ ("iphone", num 3767)
              ∷ ("ipad", num 3597)
              ∷ ("itouch", num 5689)
              ∷ []))
          ∷ (object (
              ("period", str "2011 Q1")
              ∷ ("iphone", num 6810)
              ∷ ("ipad", num 1914)
              ∷ ("itouch", num 2293)
              ∷ []))
          ∷ (object (
              ("period", str "2011 Q2")
              ∷ ("iphone", num 5670)
              ∷ ("ipad", num 4293)
              ∷ ("itouch", num 1881)
              ∷ []))
          ∷ (object (
              ("period", str "2011 Q3")
              ∷ ("iphone", num 4820)
              ∷ ("ipad", num 3795)
              ∷ ("itouch", num 1588)
              ∷ []))
          ∷ (object (
              ("period", str "2011 Q4")
              ∷ ("iphone", num 15073)
              ∷ ("ipad", num 5967)
              ∷ ("itouch", num 5175)
              ∷ []))
          ∷ (object (
              ("period", str "2012 Q1")
              ∷ ("iphone", num 10687)
              ∷ ("ipad", num 4460)
              ∷ ("itouch", num 2028)
              ∷ []))
          ∷ (object (
              ("period", str "2012 Q2")
              ∷ ("iphone", num 8432)
              ∷ ("ipad", num 5713)
              ∷ ("itouch", num 1791)
              ∷ []))
          ∷ []),
    )
    ∷ ("xkey", str "period")
    ∷ ("ykeys", strs ("iphone" ∷ "ipad" ∷ "itouch" ∷ []))
    ∷ ("labels", strs ("iPhone" ∷ "iPad" ∷ "iPod Touch" ∷ []))
    ∷ ("pointSize", num 2)
    ∷ ("hideHover", str "auto")
    ∷ ("resize", bool true)
    ∷ [])

-- `Morris.Line`
unfoldable pub plain_line : Value
plain_line = object (
    ("element", str "morris-line-chart")
    ∷ (
      "data",
      array (
          (object (("y", str "2006") ∷ ("a", num 100) ∷ ("b", num 90) ∷ []))
          ∷ (object (("y", str "2007") ∷ ("a", num 75) ∷ ("b", num 65) ∷ []))
          ∷ (object (("y", str "2008") ∷ ("a", num 50) ∷ ("b", num 40) ∷ []))
          ∷ (object (("y", str "2009") ∷ ("a", num 75) ∷ ("b", num 65) ∷ []))
          ∷ (object (("y", str "2010") ∷ ("a", num 50) ∷ ("b", num 40) ∷ []))
          ∷ (object (("y", str "2011") ∷ ("a", num 75) ∷ ("b", num 65) ∷ []))
          ∷ (object (("y", str "2012") ∷ ("a", num 100) ∷ ("b", num 90) ∷ []))
          ∷ []),
    )
    ∷ ("xkey", str "y")
    ∷ ("ykeys", strs ("a" ∷ "b" ∷ []))
    ∷ ("labels", strs ("Series A" ∷ "Series B" ∷ []))
    ∷ ("hideHover", str "auto")
    ∷ ("resize", bool true)
    ∷ [])
