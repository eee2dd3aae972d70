-- ===== src/ClientServer/Module/Tests.antt =====
-- The theorems on the module at a client with a session, and at a server with two users.
use twainet.Prelude.{◌≡◌, false, none, some, List, [], ◌∷◌}
use twainet.Prelude.Bytes.{codes, str_eq}
use twainet.Ipc.ObjectName.{plain_name}
use twainet.ClientServer.Module.{ClientServerModule, new_client_server}
use twainet.ClientServer.Module.Handler.{on_login}
use twainet.ClientServer.Module.Users.{
  Change, user_added, user_removed, change_users, last_password, on_login-last_password,
}

abbrev changes : List Change
changes =
    user_added (codes "ann") (codes "first")
    ∷ user_added (codes "bob") (codes "other")
    ∷ user_added (codes "ann") (codes "secret")
    ∷ user_removed (codes "bob") []
    ∷ []

on_login-last_password_example :
    on_login
      (change_users (new_client_server (plain_name (codes "Chat"))) changes)
      (codes "ann")
      (codes "secret")
    ≡ elim (last_password none changes (codes "ann")) [
      | none ↦ false
      | some p ↦ str_eq p (codes "secret")
    ]
on_login-last_password_example =
    on_login-last_password (plain_name (codes "Chat")) changes (codes "ann") (codes "secret")

-- A client in a session.
abbrev client : ClientServerModule
client = record (new_client_server (plain_name (codes "Chat"))) {
  own_session_id = codes "s1";
  ip = codes "10.0.0.9";
  port = 5222;
  is_stop_connect = false;
}
