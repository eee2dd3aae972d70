-- ===== src/Ipc/ObjectName/Tests.antt =====
-- The theorems on names at a name of three parts.
use twainet.Prelude.{◌≡◌, ◌≢◌, ◌↔◌, length, [], arith}
use twainet.Prelude.Bytes.{codes}
use twainet.Ipc.ObjectName.{IpcObjectName, get_module_name_string, get_ipc_name}
use twainet.Ipc.ObjectName.RoundTrip.{IsPlain, last_part, get_ipc_name-get_module_name_string}

abbrev client : IpcObjectName
client = record { module_name = codes "Client"; host_name = codes "host"; conn_id = codes "c42" }

client-IsPlain : IsPlain client
unfolding get_module_name_string
client-IsPlain = record {
  module_plain = ground arith;
  host_plain = ground arith;
  conn_plain = ground arith;
  named = λ e. ground arith;
  short = omega arith;
}

get_ipc_name-get_module_name_string_example :
    (get_ipc_name (get_module_name_string client) ≡ client)
    ↔ ((client.host_name ≡ [] → client.conn_id ≡ []) × (length (last_part client) ≢ 1))
get_ipc_name-get_module_name_string_example =
    get_ipc_name-get_module_name_string client client-IsPlain
