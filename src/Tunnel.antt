-- ===== src/Tunnel.antt =====
-- src/cpp/lib/tunnel_lib: the types of tunnels that the server chooses for each pair of peers.
pub mod PeerType
pub mod Choice
pub mod Message
pub mod Server
pub mod Client
pub mod Check
pub mod External
pub mod Relay
