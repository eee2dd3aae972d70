-- ===== src/Connector.antt =====
-- src/cpp/lib/connector_lib and the framing of src/cpp/lib/ipc_lib/connector/ipc_connector.cpp: how
-- a message becomes bytes on a TCP connection, and how the peer's thread reads them back.
pub mod Int32
pub mod MessageHandler
pub mod TcpSocket
pub mod Stream
pub mod Manager
pub mod Exchange
