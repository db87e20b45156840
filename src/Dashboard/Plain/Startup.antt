-- ===== src/Dashboard/Plain/Startup.antt =====
-- The start-up of a page by custom.js as a row of library calls.
use mathlib.Core.List.{append_assoc}
use toyhoodle.Prelude.{◌≡◌, true, ◌||◌, List, [], ◌∷◌, ◌++◌, arith}
use toyhoodle.Dashboard.Value.{all}
use toyhoodle.Dashboard.Page.{Page, Browser, Morris, Call, metis_menu, morris, ◌>>◌, perform}
use toyhoodle.Dashboard.Page.Sequences.{attempted, outcome, perform_all, perform_all_lem}
use toyhoodle.Dashboard.Theme.{bind_resize}
use toyhoodle.Dashboard.Plain.{plain_init_function}
use toyhoodle.Dashboard.Plain.Options.{plain_bar, plain_donut, plain_area, plain_line}

abbrev pub plain_calls : List Call
plain_calls =
    morris Morris.bar plain_bar
    ∷ morris Morris.donut plain_donut
    ∷ morris Morris.area plain_area
    ∷ morris Morris.line plain_line
    ∷ []

pub plain_init_function-perform_all :
    (b : Browser) (p : Page)
    → plain_init_function b p
      ≡ (perform b (metis_menu "#main-menu") >> bind_resize >> perform_all b plain_calls) p
unfolding plain_init_function perform_all
plain_init_function-perform_all b p = ground arith

abbrev pub plain_startup_calls : List Call
plain_startup_calls = metis_menu "#main-menu" ∷ plain_calls

-- The start-up makes its five library calls in order up to the first that throws, ends without an
-- exception exactly if all return, and binds the handler of `load resize` if `metisMenu` returns; it
-- leaves the rest of the page, the handler of `#sideNav` included, as it was.
pub plain_init_function_lem :
    (b : Browser) (p : Page)
    → plain_init_function b p ≡ (
      outcome (all b.returns plain_startup_calls),
      record p {
        calls = p.calls ++ attempted b.returns plain_startup_calls;
        resize_bound = p.resize_bound || b.returns (metis_menu "#main-menu");
      },
    )
unfolding attempted perform bind_resize
plain_init_function_lem b p = ground (
  arith,
  plain_init_function-perform_all b p,
  perform_all_lem b plain_calls
      (record p { resize_bound = true; calls = p.calls ++ metis_menu "#main-menu" ∷ [] }),
  append_assoc p.calls (metis_menu "#main-menu" ∷ []) (attempted b.returns plain_calls),
)
