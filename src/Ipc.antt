-- ===== src/Ipc.antt =====
-- src/cpp/lib/ipc_lib: the names of modules, the module with its signal handler, and the connector
-- with its message handler.
pub mod ObjectName
pub mod Object
pub mod Module
pub mod Handler
pub mod Connector
pub mod InternalConnector
