-- ===== src/RelayServer.antt =====
-- intercom_test/relay_server/relay_server.c: devices register under an id, and a client that names
-- one is bridged to it.
pub mod Registry
pub mod Command
pub mod Bridge
pub mod Connection
