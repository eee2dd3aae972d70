-- ===== src/ClientServer.antt =====
-- src/cpp/lib/client_server_lib: a client's session with a server, and the messages that the two
-- pass on between the tunnel modules of the clients.
pub mod Connector
pub mod Module
