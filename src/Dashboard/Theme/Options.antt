-- ===== src/Dashboard/Theme/Options.antt =====
-- The options that assets/js/custom-scripts.js hands to Morris, one object for each chart.
use toyhoodle.Prelude.{true, [], ◌∷◌}
use toyhoodle.Dashboard.Value.{Value, null, bool, num, decimal, str, array, object, strs}

-- `Morris.Bar`
unfoldable pub themed_bar : Value
themed_bar = object (
    ("element", str "morris-bar-chart")
    ∷ (
      "data",
      array (
          (object (("y", str "2006") ∷ ("a", num 100) ∷ ("b", num 90) ∷ []))
          ∷ (object (("y", str "2007") ∷ ("a", num 75) ∷ ("b", num 65) ∷ []))
          ∷ (object (("y", str "2008") ∷ ("a", num 50) ∷ ("b", num 40) ∷ []))
          ∷ (object (("y", str "2009") ∷ ("a", num 75) ∷ ("b", num 65) ∷ []))
          ∷ (object (("y", str "2010") ∷ ("a", num 50) ∷ ("b", num 40) ∷ []))
          ∷ (object (("y", str "2011") ∷ ("a", num 75) ∷ ("b", num 65) ∷ []))
          ∷ (object (("y", str "2012") ∷ ("a", num 100) ∷ ("b", num 90) ∷ []))
          ∷ []),
    )
    ∷ ("xkey", str "y")
    ∷ ("ykeys", strs ("a" ∷ "b" ∷ []))
    ∷ ("labels", strs ("Series A" ∷ "Series B" ∷ []))
    ∷ ("barColors", strs ("#22a7f0" ∷ "#1abc9c" ∷ "#A8E9DC" ∷ []))
    ∷ ("hideHover", str "auto")
    ∷ ("resize", bool true)
    ∷ [])

-- `Morris.Donut`
unfoldable pub themed_donut : Value
themed_donut = object (
    ("element", str "morris-donut-chart")
    ∷ (
      "data",
      array (
          (object (("label", str "Download Sales") ∷ ("value", num 12) ∷ []))
          ∷ (object (("label", str "In-Store Sales") ∷ ("value", num 30) ∷ []))
          ∷ (object (("label", str "Mail-Order Sales") ∷ ("value", num 20) ∷ []))
          ∷ []),
    )
    ∷ ("colors", strs ("#22a7f0" ∷ "#1abc9c" ∷ "#A8E9DC" ∷ []))
    ∷ ("resize", bool true)
    ∷ [])

-- `Morris.Area`
unfoldable pub themed_area : Value
themed_area = object (
    ("element", str "morris-area-chart")
    ∷ (
      "data",
      array (
          (object (
            ("period", str "2010 Q1")
            ∷ ("iphone", num 2666)
            ∷ ("ipad", null)
            ∷ ("itouch", num 2647)
            ∷ []))
          ∷ (object (
              ("period", str "2010 Q2")
              ∷ ("iphone", num 2778)
              ∷ ("ipad", num 2294)
              ∷ ("itouch", num 2441)
              ∷ []))
          ∷ (object (
              ("period", str "2010 Q3")
              ∷ ("iphone", num 4912)
              ∷ ("ipad", num 1969)
              ∷ ("itouch", num 2501)
              ∷ []))
          ∷ (object (
              ("period", str "2010 Q4")
              ∷ ("iphone", num 3767)
              ∷ ("ipad", num 3597)
              ∷ ("itouch", num 5689)
              ∷ []))
          ∷ (object (
              ("period", str "2011 Q1")
              ∷ ("iphone", num 6810)
              ∷ ("ipad", num 1914)
              ∷ ("itouch", num 2293)
              ∷ []))
          ∷ (object (
              ("period", str "2011 Q2")
              ∷ ("iphone", num 5670)
              ∷ ("ipad", num 4293)
              ∷ ("itouch", num 1881)
              ∷ []))
          ∷ (object (
              ("period", str "2011 Q3")
              ∷ ("iphone", num 4820)
              ∷ ("ipad", num 3795)
              ∷ ("itouch", num 1588)
              ∷ []))
          ∷ (object (
              ("period", str "2011 Q4")
              ∷ ("iphone", num 15073)
              ∷ ("ipad", num 5967)
              ∷ ("itouch", num 5175)
              ∷ []))
          ∷ (object (
              ("period", str "2012 Q1")
              ∷ ("iphone", num 10687)
              ∷ ("ipad", num 4460)
              ∷ ("itouch", num 2028)
              ∷ []))
          ∷ (object (
              ("period", str "2012 Q2")
              ∷ ("iphone", num 8432)
              ∷ ("ipad", num 5713)
              ∷ ("itouch", num 1791)
              ∷ []))
          ∷ []),
    )
    ∷ ("xkey", str "period")
    ∷ ("ykeys", strs ("iphone" ∷ "ipad" ∷ "itouch" ∷ []))
    ∷ ("labels", strs ("iPhone" ∷ "iPad" ∷ "iPod Touch" ∷ []))
    ∷ ("pointSize", num 2)
    ∷ ("hideHover", str "auto")
    ∷ ("pointFillColors", strs ("#ffffff" ∷ []))
    ∷ ("pointStrokeColors", strs ("black" ∷ []))
    ∷ ("lineColors", strs ("#22a7f0" ∷ "#1abc9c" ∷ []))
    ∷ ("resize", bool true)
    ∷ [])

-- `Morris.Line`
unfoldable pub themed_line : Value
themed_line = object (
    ("element", str "morris-line-chart")
    ∷ (
      "data",
      array (
          (object (("y", str "2014") ∷ ("a", num 50) ∷ ("b", num 90) ∷ []))
          ∷ (object (("y", str "2015") ∷ ("a", num 165) ∷ ("b", num 185) ∷ []))
          ∷ (object (("y", str "2016") ∷ ("a", num 150) ∷ ("b", num 130) ∷ []))
          ∷ (object (("y", str "2017") ∷ ("a", num 175) ∷ ("b", num 160) ∷ []))
          ∷ (object (("y", str "2018") ∷ ("a", num 80) ∷ ("b", num 65) ∷ []))
          ∷ (object (("y", str "2019") ∷ ("a", num 90) ∷ ("b", num 70) ∷ []))
          ∷ (object (("y", str "2020") ∷ ("a", num 100) ∷ ("b", num 125) ∷ []))
          ∷ (object (("y", str "2021") ∷ ("a", num 155) ∷ ("b", num 175) ∷ []))
          ∷ (object (("y", str "2022") ∷ ("a", num 80) ∷ ("b", num 85) ∷ []))
          ∷ (object (("y", str "2023") ∷ ("a", num 145) ∷ ("b", num 155) ∷ []))
          ∷ (object (("y", str "2024") ∷ ("a", num 160) ∷ ("b", num 195) ∷ []))
          ∷ []),
    )
    ∷ ("xkey", str "y")
    ∷ ("ykeys", strs ("a" ∷ "b" ∷ []))
    ∷ ("labels", strs ("Total Income" ∷ "Total Outcome" ∷ []))
    ∷ ("fillOpacity", decimal 0 6)
    ∷ ("hideHover", str "auto")
    ∷ ("behaveLikeLine", bool true)
    ∷ ("resize", bool true)
    ∷ ("pointFillColors", strs ("#ffffff" ∷ []))
    ∷ ("pointStrokeColors", strs ("black" ∷ []))
    ∷ ("lineColors", strs ("gray" ∷ "#1abc9c" ∷ []))
    ∷ [])
