-- ===== src/Example/Plain/Options.antt =====
-- The options that example/assets/js/custom.js hands to Morris, one object for each chart.
use toyhoodle.Prelude.{true, [], ◌∷◌}
use toyhoodle.Dashboard.Value.{Value, null, bool, num, str, array, object, strs}
use toyhoodle.Example.Rows.{series_row, sale, quarter}

-- `Morris.Bar`
unfoldable pub default_bar : Value
default_bar = object (
    ("element", str "morris-bar-chart")
    ∷ (
      "data",
      array (
          (series_row "2006" 100 90)
          ∷ (series_row "2007" 75 65)
          ∷ (series_row "2008" 50 40)
          ∷ (series_row "2009" 75 65)
          ∷ (series_row "2010" 50 40)
          ∷ (series_row "2011" 75 65)
          ∷ (series_row "2012" 100 90)
          ∷ []),
    )
    ∷ ("xkey", str "y")
    ∷ ("ykeys", strs ("a" ∷ "b" ∷ []))
    ∷ ("labels", strs ("Series A" ∷ "Series B" ∷ []))
    ∷ ("hideHover", str "auto")
    ∷ ("resize", bool true)
    ∷ [])

-- `Morris.Donut`
unfoldable pub default_donut : Value
default_donut = object (
    ("element", str "morris-donut-chart")
    ∷ (
      "data",
      array (
          (sale "Download Sales" 12)
          ∷ (sale "In-Store Sales" 30)
          ∷ (sale "Mail-Order Sales" 20)
          ∷ []),
    )
    ∷ ("resize", bool true)
    ∷ [])

-- `Morris.Area`
unfoldable pub default_area : Value
default_area = object (
    ("element", str "morris-area-chart")
    ∷ (
      "data",
      array (
          (quarter "2010 Q1" 2666 null 2647)
          ∷ (quarter "2010 Q2" 2778 (num 2294) 2441)
          ∷ (quarter "2010 Q3" 4912 (num 1969) 2501)
          ∷ (quarter "2010 Q4" 3767 (num 3597) 5689)
          ∷ (quarter "2011 Q1" 6810 (num 1914) 2293)
          ∷ (quarter "2011 Q2" 5670 (num 4293) 1881)
          ∷ (quarter "2011 Q3" 4820 (num 3795) 1588)
          ∷ (quarter "2011 Q4" 15073 (num 5967) 5175)
          ∷ (quarter "2012 Q1" 10687 (num 4460) 2028)
          ∷ (quarter "2012 Q2" 8432 (num 5713) 1791)
          ∷ []),
    )
    ∷ ("xkey", str "period")
    ∷ ("ykeys", strs ("iphone" ∷ "ipad" ∷ "itouch" ∷ []))
    ∷ ("labels", strs ("iPhone" ∷ "iPad" ∷ "iPod Touch" ∷ []))
    ∷ ("pointSize", num 2)
    ∷ ("hideHover", str "auto")
    ∷ ("resize", bool true)
    ∷ [])

-- `Morris.Line`
unfoldable pub default_line : Value
default_line = object (
    ("element", str "morris-line-chart")
    ∷ (
      "data",
      array (
          (series_row "2006" 100 90)
          ∷ (series_row "2007" 75 65)
          ∷ (series_row "2008" 50 40)
          ∷ (series_row "2009" 75 65)
          ∷ (series_row "2010" 50 40)
          ∷ (series_row "2011" 75 65)
          ∷ (series_row "2012" 100 90)
          ∷ []),
    )
    ∷ ("xkey", str "y")
    ∷ ("ykeys", strs ("a" ∷ "b" ∷ []))
    ∷ ("labels", strs ("Series A" ∷ "Series B" ∷ []))
    ∷ ("hideHover", str "auto")
    ∷ ("resize", bool true)
    ∷ [])
