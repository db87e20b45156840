-- ===== src/Lib.antt =====
-- Models of the parts of toyhoodle that keep state of their own, and theorems about them: the
-- monitor's page scripts, the local cache with its LRU map, its tasks and its history of visits, the
-- proxy's scheduler and forwarding client, the inbox and dispatcher of the RPC layer, the reader of lines, the
-- configuration, and the query language with its compiler and its interpreter.
--
-- Dashboard: monitorView/src/main/resources/static/webapp/assets/js, the page as a whole.
--   Value: the values that the scripts write as literals. Page: the state of a page, the library calls
--   on record, and statements that may throw. Page/Sequences: rows of calls. Page/Complete: what a
--   chart library needs of its data, as a test.
--   Theme, Theme/Options: custom-scripts.js (initFunction, the handlers of load/resize and of #sideNav).
--   Theme/Startup, Theme/Sidebar: the start-up, and the side bar after any sequence of events.
--   Plain, Plain/Options, Plain/Startup: custom.js. Charts and its children: chartjs.js.
--   Samples and its children: chart-data.js. Gauges: easypiechart-data.js. Scripts: all of them.
--   jQuery, Morris, Chart.js and the other libraries are not modelled: how a call of them ends is a
--   field of `Browser`, as is which canvases the page has. Texts of tooltips and legends are kept.
-- Example: monitorView/src/main/resources/static/example/assets/js, the second tree of pages, whose scripts
--   are the same files. They are read once more, in more detail, and compared with Dashboard's reading.
--   Document: elements with classes, inline styles and queued animations, bound handlers, and library
--   calls. Document/Queries, Document/Laws: reading and changing elements. Document/Ends,
--   Document/Settling: the ends of animations. jQuery's addClass, removeClass, hasClass, animate and bind
--   are written by their documented behaviour; a selector that names an id matches one element.
--   Theme, Theme/Options, Theme/Events: custom-scripts.js, and what happens to a page after its start.
--   Plain, Plain/Options: custom.js. Rows: the rows of both. Charts and its children: chartjs.js.
--   Samples, Samples/Random: chart-data.js, with a draw for each call of Math.random. Gauges:
--   easypiechart-data.js. Agreement: the data of both trees. Refinement/View: the page that a document
--   shows. Refinement/Handlers, Refinement/Steps, Refinement/Scripts, Refinement/Complete,
--   Refinement/Life: the handlers, any steps, every script, its charts, and a page from its start on.
-- LocalCache: localCache/src/main/java/com/toy/cache.
--   Lru: lru/LRULinkedHashMap.java, a list of entries with the eldest first; put, get and remove are
--   those of java.util.LinkedHashMap in access order. Lru/Entries: such lists. Lru/Invariant, Lru/Reads,
--   Lru/Recent: sizes and keys, what a read gives, and what is not dropped.
--   QueryTask: QueryTask.java. Cache, Cache/Nodes, Cache/Get: LRUCache.java; LRUCache.get calls itself,
--   so that its model takes a depth of calls, of which two are enough where the clock is slow and
--   there is room.
--   History: history/TimeReelHistory.java. History/Visits is its Node, where the loop of
--   getEffectiveTime takes a number of rounds: one more than there are visits is enough on a stale node.
--   History/Window, History/Cleaning, History/Counting: the loop, the scheduled task, the two counts.
--   Times are natural numbers, and sums of times stay in the range of long.
-- Snipe: snipe/src/main/java/com/toy/snipe/tcp. Balance, Balance/RoundRobin: BalanceScheduler.java.
--   Client: db/TransprtDBClint.java, whose calls and rounds of its two threads are steps; the pool of four
--   threads runs one loop, so that one task runs at a time. Client/Queue: the tasks and who waits.
--   Client/Transit, Client/Forwarding: the bytes on their way. Client/Scanning: what ends the scan.
-- Phone: phone/src/main/java/com/toy/toytelephone/rpc/netty. Inbox: Inbox.java, whose synchronized blocks
--   are steps that threads take in any order (Inbox/Delivery); post, which is not synchronized, has two steps.
--   Dispatcher: Dispatcher.java, where a call and a round of a loop are steps (Dispatcher/Stalled); it
--   holds inboxes and runs process.
-- Tran: tran/src/main/java/com/toy/tran/data/extract/file/LineInputStream.java (LineInput). A text is
--   the list of its characters, and what the encoding makes of some bytes a parameter. The loop over the
--   buffer takes a number of rounds, more than the bytes of a piece for a delimiter of one byte, and the
--   outer loop a number of reads, two more than there are pieces. LineInput/Lines, LineInput/Parts,
--   LineInput/Pieces: lines of bytes, how the reads cut them, and what a piece adds. LineInput/Streams:
--   the bytes that are left, and filling the buffer. LineInput/Reading,
--   LineInput/Rounds: rounds until the line ends.
--   LineInput/Custom: readCustomLine. LineInput/Lists: any number of calls in a row.
-- Core: core/src/main/java/com/toy/conf/HoodlConfig.java (Config, Config/Sources).
-- Cube: cube/src/main/java/com/toy/cube. Analyize.java, the method paramChage (ParamChange). A text is
--   the list of its characters. The loop takes a number of rounds, one more than there are names in the
--   text (ParamChange/Names counts them; ParamChange/Termination and ParamChange/OwnName say when it ends).
--   Text: what is used of java.lang.String, and util/StringUtil.java. Compile: Compile.java. putAction and
--   its loops call each other, so that they take a number of rounds, two for each line and two more.
--   Compile/Names: Exe.java, Action.java, Param.java, and what the compiler asks of the names.
--   Compile/State: the lines that are left (ReadFile.java) and the names, or an exception.
--   Compile/Rounds, Compile/Termination: the rounds are enough. Compile/Blocks: scripts as trees.
--   Compile/Addresses, Compile/Fitting, Compile/Keeping, Compile/Validity: the objects of the actions.
--   Compile/Starts, Compile/Answers, Compile/RoundTrip: their lines are read back. JDBC is a
--   parameter of the compiler.
--   Run: Analyize.java (doAnalyize) and Start.java. A run takes a number of rounds, one less for what an
--   action holds and for each action of a list: WHILE may take any number. Run/Values: objects, rows and
--   values, and `Library`, what JDBC, the functions and objects that are no texts do; a query may depend
--   on what the run sent before. Run/Conditions: getParamValue and the conditions. Run/Rows: a row of
--   FOREACH. Run/Sent: the texts of the queries.
-- Prelude: names of the library, Boolean tests, lists and predicates that all parts share.
--
-- Not modelled: the Netty, Thrift, Akka, Spark and JDBC code of phone, snipe, DataBus, monitor, mr,
-- transformers and cube, the threads of tran's FileExtract, the functions of cube's query language,
-- the conversions of configuration values, and the copies of libraries under assets/js.
pub mod Prelude
pub mod Dashboard
pub mod LocalCache
pub mod Snipe
pub mod Phone
pub mod Tran
pub mod Core
pub mod Cube
pub mod Example
