-- ===== src/Connector.antt =====
-- internal/connector: who may talk to the server.
pub mod Credential
mod Tests
