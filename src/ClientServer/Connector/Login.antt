-- ===== src/ClientServer/Connector/Login.antt =====
-- `Login` and `LoginResult` at the two ends of a connection.
use twainet.Prelude.{
  ℕ, ◌≡◌, Bool, true, false, List, [], ◌∷◌, ◌++◌, arith, if◌then◌else◌, not, ◌&&◌, is_empty,
}
use twainet.Prelude.Bytes.{Bytes, str_eq, str_eq_refl}
use twainet.Ipc.ObjectName.{IpcObjectName, plain_name, get_module_name_string}
use twainet.Ipc.Object.{IpcObject}
use twainet.ClientServer.Connector.{
  ClientServerConnector, SessionAct, send_message, raise_signal, stop_session, stop_login_checker,
  login_msg, login_result_msg, name_msg, on_session_start, server_ipc_name,
}
use twainet.ClientServer.Module.{ClientServerModule, Event, stop_connection}
use twainet.ClientServer.Module.Handler.{on_login, on_login_result}

-- The id with the session for its host.
abbrev pub session_name : Bytes → Bytes → IpcObjectName
session_name id session = record (plain_name id) { host_name = session }

-- The state after a login: the session, the access id, and the two names that carry the session.
abbrev pub in_session : ClientServerConnector → Bytes → Bytes → ClientServerConnector
in_session c session access_id = record c {
  own_session_id = session;
  base = record c.base {
    checker = false;
    access_id = access_id;
    id = get_module_name_string (session_name c.base.id session);
    module_name = session_name c.base.module_name.module_name session;
  };
}

-- The `ModuleName` that follows.
abbrev pub session_object : ClientServerConnector → Bytes → ℕ → Bytes → IpcObject
session_object c session port access_id = record {
  ipc_name = session_name c.base.module_name.module_name session;
  ip = [];
  port = port;
  access_id = access_id;
}

abbrev pub stop_checker_of : ClientServerConnector → List SessionAct
stop_checker_of c = if c.base.checker then stop_login_checker ∷ [] else []

abbrev pub without_checker : ClientServerConnector → ClientServerConnector
without_checker c = record c { base = record c.base { checker = false } }

-- The module stops the connections of this name.
pub is_name_stopped : Bytes → List Event → Bool
is_name_stopped name [] = false
is_name_stopped name (stop_connection s ∷ events) =
    let rest = is_name_stopped name events in if str_eq s name then true else rest
is_name_stopped name (event ∷ events) = is_name_stopped name events

-- `onMessage(const LoginResult&)`; `answered` is what the module does on the signal. A
-- `StopConnection` of this connector's name stops it before its id changes, and the function goes on.
pub on_message_login_result :
    ClientServerConnector → Bool → Bytes → List Event → ClientServerConnector × List SessionAct
unfolding is_name_stopped
on_message_login_result c success session answered =
    let acts =
      stop_checker_of c
      ++ (raise_signal (login_result_msg success session)
          ∷ (if is_name_stopped c.base.id answered then stop_session ∷ [] else [])) in
    if success
    then (
      in_session c session c.user_name,
      acts ++ send_message (name_msg (session_object c session 0 c.user_name)) ∷ [],
    )
    else (without_checker c, acts ++ stop_session ∷ [])

-- A port of -1, as an `int` of 32 bits.
abbrev pub minus_one : ℕ
minus_one = 4294967295

-- `onMessage(const Login&)`: `success` is what the module's `onLogin` answers, `guid` what
-- `CreateGUID` returns.
pub on_message_login :
    ClientServerConnector
    → Bytes
    → Bytes
    → (Bytes → Bytes → Bool)
    → Bytes
    → ClientServerConnector × List SessionAct
on_message_login c name password is_success guid =
    let success = is_success name password in
    let acts =
      stop_checker_of c
      ++ (raise_signal (login_msg name password)
          ∷ send_message (login_result_msg success guid)
          ∷ []) in
    if success
    then (
      in_session c guid name,
      acts ++ send_message (name_msg (session_object c guid minus_one name)) ∷ [],
    )
    else (without_checker c, acts ++ stop_session ∷ [])

-- The answers to a login among what is sent.
abbrev pub login_answers : List SessionAct → List (Bool × Bytes)
login_answers [] = []
login_answers (send_message (login_result_msg success session) ∷ acts) =
    (success, session) ∷ login_answers acts
login_answers (act ∷ acts) = login_answers acts

-- The end stops itself.
abbrev pub is_stopped : List SessionAct → Bool
is_stopped [] = false
is_stopped (stop_session ∷ acts) = true
is_stopped (act ∷ acts) = is_stopped acts

-- A client's end that starts sends its login. The server's end sends one answer, which is a success
-- exactly when the module's `onLogin` says so. With a success both ends have the same session and
-- access id afterwards, that is the GUID and the user's name; the server's end goes on, and the
-- client's end goes on exactly if its module had no session, which then has this one, and is stopped
-- otherwise, while the module keeps the session that it had. Without a success both ends stop, and
-- neither end nor the client's module has a new session.
pub login_agrees :
    (client server : ClientServerConnector) (k m : ClientServerModule) (guid : Bytes)
    → client.base.id ≡ server_ipc_name
    → let success = on_login m client.user_name client.password in
      let (server', acts) =
        on_message_login server client.user_name client.password (on_login m) guid in
      let (k', answered) = on_login_result k success guid in
      let (client', acts') = on_message_login_result client success guid answered in
      (on_session_start client ≡ send_message (login_msg client.user_name client.password) ∷ [])
      × (login_answers acts ≡ (success, guid) ∷ [])
      × (server'.own_session_id ≡ (if success then guid else server.own_session_id))
      × (client'.own_session_id ≡ (if success then guid else client.own_session_id))
      × (k'.own_session_id
          ≡ (if success && is_empty k.own_session_id then guid else k.own_session_id))
      × (server'.base.access_id ≡ (if success then client.user_name else server.base.access_id))
      × (client'.base.access_id ≡ (if success then client.user_name else client.base.access_id))
      × (is_stopped acts ≡ not success)
      × (is_stopped acts' ≡ not (success && is_empty k.own_session_id))
unfolding on_session_start on_message_login on_message_login_result on_login_result is_name_stopped
    get_module_name_string
login_agrees client server k m guid e = ground (arith, e, str_eq_refl server_ipc_name)
