-- ===== src/Example/Plain.antt =====
-- example/assets/js/custom.js: start-up code with the charts of Morris alone.
pub mod Options
use toyhoodle.Dashboard.Page.{Browser, Morris, metis_menu, morris}
use toyhoodle.Example.Document.{Action, ◌>>◌, bind, invoke}
use toyhoodle.Example.Theme.{resize_binding}
use Options.{default_bar, default_donut, default_area, default_line}

-- `mainApp.initFunction`, which is all that the callback of `$(document).ready` does. Its handler of
-- `load resize` reads as that of custom-scripts.js.
unfoldable pub default_init_function : Browser → Action
unfolding invoke
default_init_function b =
    invoke b (metis_menu "#main-menu")
    >> bind resize_binding
    >> invoke b (morris Morris.bar default_bar)
    >> invoke b (morris Morris.donut default_donut)
    >> invoke b (morris Morris.area default_area)
    >> invoke b (morris Morris.line default_line)
