-- ===== src/Snipe.antt =====
-- snipe/src/main/java/com/toy/snipe/tcp: the TCP proxy: the choice of a server, and the client that
-- forwards to it.
pub mod Balance
pub mod Client
mod Tests
