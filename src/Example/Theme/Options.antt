-- ===== src/Example/Theme/Options.antt =====
-- The options that example/assets/js/custom-scripts.js hands to Morris, one object for each chart.
use toyhoodle.Prelude.{true, [], ◌∷◌}
use toyhoodle.Dashboard.Value.{Value, null, bool, num, decimal, str, array, object, strs}
use toyhoodle.Example.Rows.{series_row, sale, quarter}

-- `Morris.Bar`
unfoldable pub styled_bar : Value
styled_bar = object (
    ("element", str "morris-bar-chart")
    ∷ (
      "data",
      array (
          (series_row "2006" 100 90)
          ∷ (series_row "2007" 75 65)
          ∷ (series_row "2008" 50 40)
          ∷ (series_row "2009" 75 65)
          ∷ (series_row "2010" 50 40)
          ∷ (series_row "2011" 75 65)
          ∷ (series_row "2012" 100 90)
          ∷ []),
    )
    ∷ ("xkey", str "y")
    ∷ ("ykeys", strs ("a" ∷ "b" ∷ []))
    ∷ ("labels", strs ("Series A" ∷ "Series B" ∷ []))
    ∷ ("barColors", strs ("#22a7f0" ∷ "#1abc9c" ∷ "#A8E9DC" ∷ []))
    ∷ ("hideHover", str "auto")
    ∷ ("resize", bool true)
    ∷ [])

-- `Morris.Donut`
unfoldable pub styled_donut : Value
styled_donut = object (
    ("element", str "morris-donut-chart")
    ∷ (
      "data",
      array (
          (sale "Download Sales" 12)
          ∷ (sale "In-Store Sales" 30)
          ∷ (sale "Mail-Order Sales" 20)
          ∷ []),
    )
    ∷ ("colors", strs ("#22a7f0" ∷ "#1abc9c" ∷ "#A8E9DC" ∷ []))
    ∷ ("resize", bool true)
    ∷ [])

-- `Morris.Area`
unfoldable pub styled_area : Value
styled_area = object (
    ("element", str "morris-area-chart")
    ∷ (
      "data",
      array (
          (quarter "2010 Q1" 2666 null 2647)
          ∷ (quarter "2010 Q2" 2778 (num 2294) 2441)
          ∷ (quarter "2010 Q3" 4912 (num 1969) 2501)
          ∷ (quarter "2010 Q4" 3767 (num 3597) 5689)
          ∷ (quarter "2011 Q1" 6810 (num 1914) 2293)
          ∷ (quarter "2011 Q2" 5670 (num 4293) 1881)
          ∷ (quarter "2011 Q3" 4820 (num 3795) 1588)
          ∷ (quarter "2011 Q4" 15073 (num 5967) 5175)
          ∷ (quarter "2012 Q1" 10687 (num 4460) 2028)
          ∷ (quarter "2012 Q2" 8432 (num 5713) 1791)
          ∷ []),
    )
    ∷ ("xkey", str "period")
    ∷ ("ykeys", strs ("iphone" ∷ "ipad" ∷ "itouch" ∷ []))
    ∷ ("labels", strs ("iPhone" ∷ "iPad" ∷ "iPod Touch" ∷ []))
    ∷ ("pointSize", num 2)
    ∷ ("hideHover", str "auto")
    ∷ ("pointFillColors", strs ("#ffffff" ∷ []))
    ∷ ("pointStrokeColors", strs ("black" ∷ []))
    ∷ ("lineColors", strs ("#22a7f0" ∷ "#1abc9c" ∷ []))
    ∷ ("resize", bool true)
    ∷ [])

-- `Morris.Line`
unfoldable pub styled_line : Value
styled_line = object (
    ("element", str "morris-line-chart")
    ∷ (
      "data",
      array (
          (series_row "2014" 50 90)
          ∷ (series_row "2015" 165 185)
          ∷ (series_row "2016" 150 130)
          ∷ (series_row "2017" 175 160)
          ∷ (series_row "2018" 80 65)
          ∷ (series_row "2019" 90 70)
          ∷ (series_row "2020" 100 125)
          ∷ (series_row "2021" 155 175)
          ∷ (series_row "2022" 80 85)
          ∷ (series_row "2023" 145 155)
          ∷ (series_row "2024" 160 195)
          ∷ []),
    )
    ∷ ("xkey", str "y")
    ∷ ("ykeys", strs ("a" ∷ "b" ∷ []))
    ∷ ("labels", strs ("Total Income" ∷ "Total Outcome" ∷ []))
    ∷ ("fillOpacity", decimal 0 6)
    ∷ ("hideHover", str "auto")
    ∷ ("behaveLikeLine", bool true)
    ∷ ("resize", bool true)
    ∷ ("pointFillColors", strs ("#ffffff" ∷ []))
    ∷ ("pointStrokeColors", strs ("black" ∷ []))
    ∷ ("lineColors", strs ("gray" ∷ "#1abc9c" ∷ []))
    ∷ [])
