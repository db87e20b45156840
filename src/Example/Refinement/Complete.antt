-- ===== src/Example/Refinement/Complete.antt =====
-- What the scripts of the second tree hand to the charts.
use toyhoodle.Example.Document.{Document}
