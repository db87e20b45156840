-- ===== src/Dashboard/Plain.antt =====
-- assets/js/custom.js: start-up code with the same charts, and no handler of `#sideNav`.
pub mod Options
pub mod Startup
use toyhoodle.Dashboard.Page.{Browser, Script, Morris, metis_menu, morris, ◌>>◌, perform}
use toyhoodle.Dashboard.Theme.{bind_resize}
use Options.{plain_bar, plain_donut, plain_area, plain_line}

-- `mainApp.initFunction`, all that its callback of `$(document).ready` calls. The handler of
-- `load resize` that it binds is that of custom-scripts.js.
unfoldable pub plain_init_function : Browser → Script
unfolding bind_resize perform
plain_init_function b =
    perform b (metis_menu "#main-menu")
    >> bind_resize
    >> perform b (morris Morris.bar plain_bar)
    >> perform b (morris Morris.donut plain_donut)
    >> perform b (morris Morris.area plain_area)
    >> perform b (morris Morris.line plain_line)
