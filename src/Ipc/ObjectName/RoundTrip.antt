-- ===== src/Ipc/ObjectName/RoundTrip.antt =====
-- Names printed by `GetModuleNameString` and read back by `GetIPCName`.
use twainet.Prelude.{
  ◌^◌, ◌<◌, ◌≡◌, ◌≢◌, ◌↔◌, refl, List, [], ◌∷◌, ◌++◌, arith, length, is_empty, if◌then◌else◌, some,
  ◌==◌, append_assoc,
}
use twainet.Prelude.Bytes.{Bytes}
use twainet.Utils.Find.{Lacks}
use twainet.Utils.Delimit.{join, delimit_string-join}
use twainet.Utils.{delimit_string}
use twainet.Ipc.ObjectName.{
  IpcObjectName, dot, plain_name, get_module_name_string, from_strings, get_ipc_name,
}

dot_nz : dot ≢ 0
dot_nz e = omega (arith, e)

-- No part holds a dot, the module's name is not empty, and the text is below 2 ^ 64 bytes.
pub record IsPlain (n : IpcObjectName) : Type 0 where
  pub module_plain : Lacks dot n.module_name
  pub host_plain : Lacks dot n.host_name
  pub conn_plain : Lacks dot n.conn_id
  pub named : n.module_name ≢ []
  pub short : length (get_module_name_string n) < 2 ^ 64

-- The last part that is printed.
abbrev pub last_part : IpcObjectName → Bytes
last_part n =
    if is_empty n.conn_id
    then (if is_empty n.host_name then n.module_name else n.host_name)
    else n.conn_id

get_ipc_name-join :
    (xs : List Bytes) (last : Bytes) {ss : List Bytes}
    → delimit_string (join dot xs last) (dot ∷ []) ≡ some ss
    → get_ipc_name (join dot xs last) ≡ from_strings ss
unfolding get_ipc_name
get_ipc_name-join xs last e = rw (e, get_ipc_name)

module_only :
    (m : Bytes)
    → Lacks dot m
    → length m < 2 ^ 64
    → get_ipc_name m ≡ (if length m == 1 then plain_name [] else plain_name m)
unfolding from_strings
module_only m hm lt =
    ground (arith, get_ipc_name-join [] m (delimit_string-join dot dot_nz [] m tt hm lt))

two_parts :
    (m h : Bytes)
    → Lacks dot m
    → Lacks dot h
    → m ≢ []
    → length (m ++ dot ∷ h) < 2 ^ 64
    → get_ipc_name (m ++ dot ∷ h) ≡ (
        if length h == 1
        then plain_name m
        else record { module_name = m; host_name = h; conn_id = [] })
unfolding from_strings
two_parts [] h hm hh ne lt = absurd (ne refl)
two_parts (b ∷ m) h hm hh ne lt = ground (
  arith,
  get_ipc_name-join ((b ∷ m) ∷ []) h
      (delimit_string-join dot dot_nz ((b ∷ m) ∷ []) h (hm, tt) hh lt),
)

three_parts :
    (m h k : Bytes)
    → Lacks dot m
    → Lacks dot h
    → Lacks dot k
    → m ≢ []
    → h ≢ []
    → length (m ++ dot ∷ (h ++ dot ∷ k)) < 2 ^ 64
    → get_ipc_name (m ++ dot ∷ (h ++ dot ∷ k)) ≡ (
        if length k == 1
        then record { module_name = m; host_name = h; conn_id = [] }
        else record { module_name = m; host_name = h; conn_id = k })
unfolding from_strings
three_parts [] h k hm hh hk ne ne' lt = absurd (ne refl)
three_parts (b ∷ m) [] k hm hh hk ne ne' lt = absurd (ne' refl)
three_parts (b ∷ m) (d ∷ h) k hm hh hk ne ne' lt = ground (
  arith,
  get_ipc_name-join ((b ∷ m) ∷ (d ∷ h) ∷ []) k
      (delimit_string-join dot dot_nz ((b ∷ m) ∷ (d ∷ h) ∷ []) k (hm, (hh, tt)) hk lt),
)

-- What `GetIPCName` reads from a printed name: a connection id behind no host is read as the host,
-- and the last part that is printed is lost if it is one byte.
abbrev pub reread : IpcObjectName → IpcObjectName
reread n =
    if is_empty n.conn_id
    then (if is_empty n.host_name
        then (if length n.module_name == 1 then plain_name [] else n)
        else (if length n.host_name == 1 then plain_name n.module_name else n))
    else (if is_empty n.host_name
        then (if length n.conn_id == 1
            then plain_name n.module_name
            else record { module_name = n.module_name; host_name = n.conn_id; conn_id = [] })
        else (if length n.conn_id == 1 then record n { conn_id = [] } else n))

reread_parts :
    (m h k : Bytes)
    → let n : IpcObjectName = record { module_name = m; host_name = h; conn_id = k } in
      IsPlain n → get_ipc_name (get_module_name_string n) ≡ reread n
unfolding get_module_name_string
reread_parts m [] [] p = module_only m p.module_plain p.short
reread_parts m (d ∷ h) [] p = two_parts m (d ∷ h) p.module_plain p.host_plain p.named p.short
reread_parts m [] (e ∷ k) p = two_parts m (e ∷ k) p.module_plain p.conn_plain p.named p.short
reread_parts m (d ∷ h) (e ∷ k) p = rw append_assoc (
    three_parts m (d ∷ h) (e ∷ k) p.module_plain p.host_plain p.conn_plain p.named (λ q. cc)
      (rw append_assoc at p.short))

-- `GetIPCName` of a name's text, for every name whose parts hold no dot.
pub get_ipc_name-reread :
    (n : IpcObjectName) → IsPlain n → get_ipc_name (get_module_name_string n) ≡ reread n
get_ipc_name-reread n p = reread_parts n.module_name n.host_name n.conn_id p

reread_iff :
    (m h k : Bytes)
    → m ≢ []
    → let n : IpcObjectName = record { module_name = m; host_name = h; conn_id = k } in
      (reread n ≡ n) ↔ ((h ≡ [] → k ≡ []) × (length (last_part n) ≢ 1))
reread_iff m [] [] ne = (λ e. (λ q. refl, λ l. ground arith), λ c. ground (arith, c.1))
reread_iff m (d ∷ h) [] ne = (λ e. (λ q. cc, λ l. ground arith), λ c. ground (arith, c.1))
reread_iff m [] (d ∷ k) ne =
    (λ e. (λ q. ground arith, λ l. ground arith), λ c. ground (arith, c.0 refl))
reread_iff m (d ∷ h) (b ∷ k) ne = (λ e. (λ q. cc, λ l. ground arith), λ c. ground (arith, c.1))

-- A name with a module name, whose parts hold no dot and whose text is below 2 ^ 64 bytes, comes back
-- from its text exactly when it has no connection id without a host, and the last part that it prints
-- is not a single byte.
pub get_ipc_name-get_module_name_string :
    (n : IpcObjectName)
    → IsPlain n
    → (get_ipc_name (get_module_name_string n) ≡ n)
      ↔ ((n.host_name ≡ [] → n.conn_id ≡ []) × (length (last_part n) ≢ 1))
get_ipc_name-get_module_name_string n p =
    rw (get_ipc_name-reread n p) (reread_iff n.module_name n.host_name n.conn_id p.named)
