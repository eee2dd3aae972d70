-- ===== src/Lib.antt =====
-- A model of Twainet, a library with which the modules of an application, in processes on one or
-- more computers, connect and send each other messages (src/cpp).
--
-- The parts and their files:
--   ObjectManager    src/cpp/include/object_manager.h. The sorted vector in which every part keeps
--     its objects. Reference: each operation as one recursion. Sorted: the representation. Refinement
--     and History: the map that it implements. Scan: `CheckObjects`.
--   Utils            src/cpp/utils/utils.cpp, `DelimitString` and `ConcatString`.
--   Connector        How a message becomes bytes and back. MessageHandler:
--     src/cpp/lib/connector_lib/handler/message_handler.cpp and
--     src/cpp/lib/ipc_lib/connector/proto_message.h. TcpSocket: `Send` and `Recv` of
--     src/cpp/lib/connector_lib/socket/tcp_socket.cpp. Stream: the frames and the reading loop of
--     src/cpp/lib/ipc_lib/connector/ipc_connector.cpp. Int32: an `int` as four bytes.
--     Exchange: from one module's `toMessage` to the other's `onData`.
--     Manager: src/cpp/lib/connector_lib/connector/connector_manager.cpp.
--   Thread           Timer: src/cpp/lib/thread_lib/common/timer.cpp. Life:
--     src/cpp/lib/thread_lib/thread/thread.cpp, with Manager:
--     src/cpp/lib/thread_lib/thread/thread_manager.cpp. Semaphore: src/cpp/include/semaphore.h.
--   Tunnel           src/cpp/lib/tunnel_lib. PeerType and Choice: module/tunnel_containers.cpp and the
--     types of tunnels in module/tunnel_module.cpp. Message: the messages and what the module does to
--     the outside. Server: module/server_signal_handler.cpp, with Listener for what the server's
--     threads signal. Client: the threads of module/tunnel_module.cpp, with Handler:
--     module/client_signal_handler.cpp. Check: `CheckTunnels` and
--     src/cpp/lib/tunnel_lib/thread/tunnel_checker_thread.cpp. External:
--     src/cpp/lib/tunnel_lib/thread/external_connect_thread.cpp. Relay:
--     src/cpp/lib/tunnel_lib/thread/relay_listen_thread.cpp.
--   ClientServer     src/cpp/lib/client_server_lib. Connector:
--     connector/client_server_connector.cpp, with Login, and Relay, Tunnels and Requests for what it
--     passes on between tunnel modules. Module: module/client_server_module.cpp, with Handler:
--     module/client_server_signal_handler.cpp.
--   Ipc              src/cpp/lib/ipc_lib. ObjectName: module/ipc_object_name.cpp. Object: the records
--     of module/ipc_module.cpp. Module: its state and operations. Handler:
--     module/ipc_signal_handler.cpp, which changes that state on signals.
--     Connector: connector/ipc_connector.cpp, with Handler: connector/ipc_handler.cpp.
--     InternalConnector: connector/internal_connector.cpp.
--   Order, StringMap, Prelude: `operator <` and `==`, std::map, and what all files share.
-- A connector reads messages (Connector) and hands them to its message handlers; these raise the
-- signals on which the module's signal handler changes the module (Ipc.Handler). The module keeps its
-- objects in object managers, under names that are read from text by `DelimitString`. A client and a
-- server are such modules with a session between them (ClientServer); the server makes the tunnels
-- between its clients (Tunnel), and the connectors of the sessions carry the messages on them.
--
-- An operation of a class is the function of the same words, on the state and the arguments. It
-- returns the new state, and where it does something to the outside the list of `Event`s: threads
-- that it starts, virtual functions that it calls, signals that it raises. Strings are lists of bytes,
-- an `int` that is read from bytes is the number below 2 ^ 32 with its sign tested on it, `size_t`
-- wraps at 2 ^ 64. A lock makes an operation atomic; it has no other place in the model. The clock, the
-- user's name, GUIDs, the addresses of what is made by `new`, and what the system calls answer are
-- arguments. A thread is named by its address. A result of `none` is a call on a null pointer, where
-- a function says so. An unset type of a tunnel reads as `TUNNEL_ALL`, which is protobuf's default.
--
-- Bounds. `DelimitString` runs on as much fuel as the text has bytes, and two: each round but the last
-- passes a delimiter. `CheckObjects` runs on one round more than there are objects. The reading loop
-- runs as often as its thread is not yet stopped, a number that is an argument.
--
-- Not modelled: protobuf's encoding (the bytes of a message are an argument), sockets' system calls,
-- UDT, OpenSSL and libntlm, the bodies of the other listening and connecting threads, the C interface, the
-- applications, and loggers. Of the tunnel module and the client and server module,
-- `FillIPCObjectList` and the destructors.
pub mod ClientServer
pub mod Connector
pub mod Ipc
pub mod ObjectManager
pub mod Order
pub mod Prelude
pub mod StringMap
pub mod Thread
pub mod Tunnel
pub mod Utils
