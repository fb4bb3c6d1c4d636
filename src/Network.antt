-- ===== src/Network.antt =====
-- adapters/qt_network: the file transfer between two nodes over TCP.
pub mod Qt
pub mod Server
pub mod Client
