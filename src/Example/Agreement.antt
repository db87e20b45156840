-- ===== src/Example/Agreement.antt =====
-- The two trees hold the same data: what example/assets/js hands to the chart libraries, by its own
-- reading, is what webapp/assets/js hands to them.
use native.Mathlib.Nat.{add_assoc}
use toyhoodle.Prelude.{ℕ, ◌+◌, ◌*◌, ◌≡◌, refl, arith}
use toyhoodle.Dashboard.Theme.Options.{themed_bar, themed_donut, themed_area, themed_line}
use toyhoodle.Dashboard.Plain.Options.{plain_bar, plain_donut, plain_area, plain_line}
use toyhoodle.Dashboard.Charts.Lines.{
  line_options, line_points, jumbotron_options, jumbotron_points,
}
use toyhoodle.Dashboard.Charts.Bars.{bar_options, bar_points, radar_options, radar_points}
use toyhoodle.Dashboard.Charts.Segments.{
  polar_area_options, polar_area_segments, pie_options, pie_segments,
}
use toyhoodle.Dashboard.Samples.Points.{
  Source, random_scaling_factor, seven, line_chart_data, bar_chart_data, pie_data, doughnut_data,
}
use toyhoodle.Example.Theme.Options.{styled_bar, styled_donut, styled_area, styled_line}
use toyhoodle.Example.Plain.Options.{default_bar, default_donut, default_area, default_line}
use toyhoodle.Example.Charts.Grids.{
  line_chart_options, line_chart_points, bar_chart_options, bar_chart_points, radar_chart_options,
  radar_chart_points, jumbotron_chart_options, jumbotron_chart_points,
}
use toyhoodle.Example.Charts.Circles.{
  polar_chart_options, polar_chart_segments, pie_chart_options, pie_chart_segments,
}
use toyhoodle.Example.Samples.{
  load_script, draw_line_data, draw_bar_data, pie_slices, doughnut_slices,
}
use toyhoodle.Example.Samples.Random.{random_scaling_factor as draw_factor, seven_draws}

-- The charts of custom-scripts.js.
pub styled_agrees :
    (styled_bar ≡ themed_bar)
    × (styled_donut ≡ themed_donut)
    × (styled_area ≡ themed_area)
    × (styled_line ≡ themed_line)
unfolding styled_bar themed_bar styled_donut themed_donut styled_area themed_area styled_line
    themed_line
styled_agrees = (refl, refl, refl, refl)

-- The charts of custom.js.
pub default_agrees :
    (default_bar ≡ plain_bar)
    × (default_donut ≡ plain_donut)
    × (default_area ≡ plain_area)
    × (default_line ≡ plain_line)
unfolding default_bar plain_bar default_donut plain_donut default_area plain_area default_line
    plain_line
default_agrees = (refl, refl, refl, refl)

-- The charts with datasets of chartjs.js.
pub grids_agree :
    (line_chart_options ≡ line_options)
    × (line_chart_points ≡ line_points)
    × (bar_chart_options ≡ bar_options)
    × (bar_chart_points ≡ bar_points)
    × (radar_chart_options ≡ radar_options)
    × (radar_chart_points ≡ radar_points)
    × (jumbotron_chart_options ≡ jumbotron_options)
    × (jumbotron_chart_points ≡ jumbotron_points)
unfolding line_chart_options line_options line_chart_points line_points bar_chart_options
    bar_options bar_chart_points bar_points radar_chart_options radar_options radar_chart_points
    radar_points jumbotron_chart_options jumbotron_options jumbotron_chart_points jumbotron_points
grids_agree = (refl, refl, refl, refl, refl, refl, refl, refl)

-- Its charts with segments.
pub circles_agree :
    (polar_chart_options ≡ polar_area_options)
    × (polar_chart_segments ≡ polar_area_segments)
    × (pie_chart_options ≡ pie_options)
    × (pie_chart_segments ≡ pie_segments)
    × (pie_slices ≡ pie_data)
    × (doughnut_slices ≡ doughnut_data)
unfolding polar_chart_options polar_area_options polar_chart_segments polar_area_segments
    pie_chart_options pie_options pie_chart_segments pie_segments pie_slices pie_data
    doughnut_slices doughnut_data
circles_agree = (refl, refl, refl, refl, refl, refl)

factor_agrees : (s : Source) (n : ℕ) → draw_factor s n ≡ (random_scaling_factor s n, n + 1)
unfolding draw_factor random_scaling_factor
factor_agrees s n =
    let two : s.draw n * 1000 * 2 ≡ 2 * (s.draw n * 1000) = omega arith in
    let twice : s.scale * 2 ≡ 2 * s.scale = omega arith in rw (two, twice) refl

seven_agree : (s : Source) (n : ℕ) → seven_draws s n ≡ (seven s n, n + 7)
unfolding seven_draws seven
seven_agree s n = simp (factor_agrees, add_assoc)

-- Read as one expression after another, the script draws 28 numbers: those of the line chart first,
-- each dataset from left to right. Its two globals hold the data that the numbered reading has.
pub load_script_agrees :
    (s : Source)
    → load_script s 0
      ≡ (record { line_chart_data = line_chart_data s; bar_chart_data = bar_chart_data s }, 28)
unfolding load_script draw_line_data draw_bar_data line_chart_data bar_chart_data
load_script_agrees s = simp (seven_agree)
