-- ===== src/ClientServer/Module/Users.antt =====
-- Who may log in: `AddUser`, `RemoveUser` and `ClearUsers` beside `onLogin`.
use twainet.Prelude.{
  ◌≡◌, refl, ap, ◌∙◌, false, Option, none, some, List, [], ◌∷◌, arith, if◌then◌else◌,
}
use twainet.Prelude.Bytes.{Bytes, str_eq}
use twainet.ObjectManager.{add_object}
use twainet.ObjectManager.Sorted.{
  IsSorted, add_object-IsSorted, update_object-IsSorted, remove_object-IsSorted,
}
use twainet.ObjectManager.Refinement.{
  lookup, get_object-lookup, lookup-add_object, lookup-update_object, lookup-remove_object,
}
use twainet.Ipc.ObjectName.{IpcObjectName}
use twainet.ClientServer.Module.{
  ClientServerModule, UserPassword, user_order, user_eq, add_user, remove_user, clear_users,
  new_client_server,
}
use twainet.ClientServer.Module.Handler.{on_login}

-- A call that changes the users.
pub data Change : Type 0 where
  user_added user_removed : Bytes → Bytes → Change
  users_cleared : Change

pub change_users : ClientServerModule → List Change → ClientServerModule
change_users m [] = m
change_users m (user_added name password ∷ cs) = change_users (add_user m name password) cs
change_users m (user_removed name password ∷ cs) = change_users (remove_user m name password) cs
change_users m (users_cleared ∷ cs) = change_users (clear_users m) cs

-- The password that the calls leave for a name.
abbrev pub last_password : Option Bytes → List Change → Bytes → Option Bytes
last_password before [] q = before
last_password before (user_added name password ∷ cs) q =
    last_password (if str_eq name q then some password else before) cs q
last_password before (user_removed name password ∷ cs) q =
    last_password (if str_eq name q then none else before) cs q
last_password before (users_cleared ∷ cs) q = last_password none cs q

abbrev password_of : Option UserPassword → Option Bytes
password_of none = none
password_of (some user) = some user.password

abbrev key_of : Bytes → UserPassword
key_of q = record { user_name = q; password = [] }

abbrev stored : ClientServerModule → Bytes → Option Bytes
stored m q = password_of (lookup m.user_passwords (key_of q))

add_user-stored :
    (m : ClientServerModule) (name password q : Bytes)
    → IsSorted m.user_passwords
    → (stored (add_user m name password) q ≡ (if str_eq name q then some password else stored m q))
      × IsSorted (add_user m name password).user_passwords
unfolding add_user user_eq
add_user-stored m name password q s =
    let user : UserPassword = record { user_name = name; password = password } in
    let users = (add_object m.user_passwords user).0 in
    let s' = add_object-IsSorted m.user_passwords user s in
    let added = lookup-add_object m.user_passwords user s in
    let updated = lookup-update_object users user s' in
    ground (
      arith,
      s',
      update_object-IsSorted users user s',
      added.1,
      ap (λ f. f (key_of q)) added.0,
      ap (λ f. f user) added.0,
      ap (λ f. f (key_of q)) updated.0,
      user_order.lawful.eq_refl user,
    )

remove_user-stored :
    (m : ClientServerModule) (name password q : Bytes)
    → IsSorted m.user_passwords
    → (stored (remove_user m name password) q ≡ (if str_eq name q then none else stored m q))
      × IsSorted (remove_user m name password).user_passwords
unfolding remove_user user_eq
remove_user-stored m name password q s =
    let user : UserPassword = record { user_name = name; password = password } in
    ground (
      arith,
      remove_object-IsSorted m.user_passwords user s,
      ap (λ f. f (key_of q)) (lookup-remove_object m.user_passwords user s).0,
    )

change_users-stored :
    (m : ClientServerModule) (cs : List Change) (q : Bytes)
    → IsSorted m.user_passwords
    → (stored (change_users m cs) q ≡ last_password (stored m q) cs q)
      × IsSorted (change_users m cs).user_passwords
unfolding change_users clear_users lookup
change_users-stored m [] q s = (refl, s)
change_users-stored m (user_added name password ∷ cs) q s =
    let m' = add_user m name password in
    let (now, s') = add_user-stored m name password q s in
    let (later, s'') = change_users-stored m' cs q s' in
    (later ∙ ap (λ before. last_password before cs q) now, s'')
change_users-stored m (user_removed name password ∷ cs) q s =
    let m' = remove_user m name password in
    let (now, s') = remove_user-stored m name password q s in
    let (later, s'') = change_users-stored m' cs q s' in
    (later ∙ ap (λ before. last_password before cs q) now, s'')
change_users-stored m (users_cleared ∷ cs) q s = change_users-stored (clear_users m) cs q tt

-- After any calls of `AddUser`, `RemoveUser` and `ClearUsers` on a new module, a login is a success
-- exactly when the last call that concerns its name added it with the login's password.
-- `RemoveUser` needs only the name.
pub on_login-last_password :
    (self : IpcObjectName) (cs : List Change) (name password : Bytes)
    → on_login (change_users (new_client_server self) cs) name password
      ≡ elim (last_password none cs name) [ none ↦ false | some p ↦ str_eq p password ]
unfolding on_login lookup
on_login-last_password self cs name password =
    let m = new_client_server self in
    let (stored_now, s) = change_users-stored m cs name tt in
    ground (arith, stored_now, get_object-lookup (change_users m cs).user_passwords (key_of name) s)
