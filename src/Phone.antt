-- ===== src/Phone.antt =====
-- phone/src/main/java/com/toy/toytelephone/rpc/netty: the delivery of messages to RPC endpoints.
pub mod Inbox
pub mod Dispatcher
mod Tests
