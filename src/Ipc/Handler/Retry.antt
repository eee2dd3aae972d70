-- ===== src/Ipc/Handler/Retry.antt =====
-- What happens after a connection attempt that fails: `onErrorConnect`, `ConnectTo` and `ManagerFunc`.
use twainet.Prelude.{
  ℕ, Bool, ◌+◌, ◌<◌, ◌≤◌, ◌≡◌, ◌≢◌, refl, ap, sym, ◌∙◌, true, false, none, some, List, [], ◌∷◌,
  arith,
}
use twainet.Prelude.Bytes.{Bytes, str_eq_sound, str_eq_refl}
use twainet.ObjectManager.{add_object, get_object, update_object}
use twainet.ObjectManager.Sorted.{IsSorted, add_object-IsSorted, update_object-IsSorted}
use twainet.ObjectManager.Refinement.{get_object-lookup, lookup-add_object, lookup-update_object}
use twainet.Ipc.ObjectName.{IpcObjectName, get_ipc_name, get_module_name_string}
use twainet.Ipc.Object.{
  TryConnectCounter, counter_order, new_counter, coordinator_ipc_name, coordinator_port,
  connect_timeout, max_try_connect_count,
}
use twainet.Ipc.Module.{IpcModule, connect_thread, on_connect_failed, connect_to, manager_func}
use twainet.Ipc.Module.Valid.{IsValid, connect_to-IsValid}
use twainet.Ipc.Handler.{on_error_connect}
use twainet.Ipc.Handler.Valid.{Input, run, on_error_connect-IsValid}
use twainet.Ipc.Handler.Counters.{
  counter_of, counter_eq_of, counter_name, lookup_same_name, are_other, run-counter,
}

-- `ConnectTo` does nothing but report a failure for a name that has a counter.
connect_to-counted :
    (m : IpcModule) (name : IpcObjectName) {c : TryConnectCounter}
    → counter_of m (get_module_name_string name) ≡ some c
    → connect_to m name ≡ (m, on_connect_failed (get_module_name_string name) ∷ [])
unfolding connect_to
connect_to-counted m name e = rw (e, connect_to)

connect_to-started :
    (m : IpcModule) (name : IpcObjectName) {id : Bytes} {port : ℕ}
    → (connect_to m name).1 ≡ connect_thread id port ∷ []
    → (m.is_exit ≡ false)
      × (counter_of m (get_module_name_string name) ≡ none)
      × ((connect_to m name).0 ≡ record m {
        try_connect_counters =
            (add_object m.try_connect_counters (new_counter (get_module_name_string name))).0;
      })
unfolding connect_to
connect_to-started m name e = ground arith

counted_after_add :
    (cs : List TryConnectCounter) (id : Bytes)
    → IsSorted cs
    → get_object cs (new_counter id) ≡ none
    → get_object (add_object cs (new_counter id)).0 (new_counter id) ≡ some (new_counter id)
counted_after_add cs id s e =
    get_object-lookup _ (new_counter id) (add_object-IsSorted cs (new_counter id) s)
    ∙ ap (λ f. f (new_counter id)) (lookup-add_object cs (new_counter id) s).0
    ∙ ground (
      arith,
      counter_eq_of (new_counter id) (new_counter id) refl,
      sym (get_object-lookup cs (new_counter id) s) ∙ e,
    )

counted_after_update :
    (cs : List TryConnectCounter) (id : Bytes) (n : ℕ) {c : TryConnectCounter}
    → IsSorted cs
    → get_object cs (new_counter id) ≡ some c
    → get_object (update_object cs (record c { count = n })).0 (new_counter id)
      ≡ some (record c { count = n })
counted_after_update cs id n {c} s e =
    let c' : TryConnectCounter = record c { count = n } in
    let found = sym (get_object-lookup cs (new_counter id) s) ∙ e in
    let named = counter_name cs id {c = c} found in
    get_object-lookup _ (new_counter id) (update_object-IsSorted cs c' s)
    ∙ ap (λ f. f (new_counter id)) (lookup-update_object cs c' s).0
    ∙ ground (
      arith,
      counter_eq_of c' (new_counter id) named,
      lookup_same_name cs c' (new_counter id) named,
      found,
    )

-- A failed attempt to reach a module whose attempt is counted, and counted less than ten times:
-- no thread is started, the failure is reported, and the count goes up.
on_error_connect-counted :
    (m : IpcModule) (now : ℕ) (id : Bytes) {c : TryConnectCounter}
    → IsValid m
    → m.is_exit ≡ false
    → id ≢ coordinator_ipc_name
    → get_module_name_string (get_ipc_name id) ≡ id
    → counter_of m id ≡ some c
    → c.count < max_try_connect_count
    → ((on_error_connect m now id).1 ≡ on_connect_failed id ∷ [])
      × (counter_of (on_error_connect m now id).0 id ≡ some (record c { count = c.count + 1 }))
unfolding on_error_connect
on_error_connect-counted m now id {c} v alive other back found lt =
    let failed = connect_to-counted m (get_ipc_name id) (ap (counter_of m) back ∙ found) in
    ground (
      arith,
      failed,
      back,
      str_eq_sound id coordinator_ipc_name,
      counted_after_update m.try_connect_counters id (c.count + 1) v.counters_sorted found,
    )

-- For a name other than the coordinator's, whose text is read back as the name: if `ConnectTo` starts
-- an attempt and the attempt fails, `onErrorConnect` starts no other and reports a failure. From then
-- on, whatever the module is asked or told but another failure, a `ModuleName` or the change of a name,
-- `ConnectTo` to that name does nothing but report a failure.
pub connect_to_after_failure :
    (user_name : Bytes) (check_fire_connector : Bytes → Bool) (m : IpcModule) (name : IpcObjectName)
    (now : ℕ) (is : List Input) {started : Bytes} {port : ℕ}
    → IsValid m
    → get_module_name_string name ≢ coordinator_ipc_name
    → get_ipc_name (get_module_name_string name) ≡ name
    → (connect_to m name).1 ≡ connect_thread started port ∷ []
    → are_other is ≡ true
    → let id = get_module_name_string name in
      let (m', events) = on_error_connect (connect_to m name).0 now id in
      let m'' = run user_name check_fire_connector m' is in
      (events ≡ on_connect_failed id ∷ [])
      × (connect_to m'' name ≡ (m'', on_connect_failed id ∷ []))
connect_to_after_failure user_name check_fire_connector m name now is {started} {port} v other back
      e others =
    let id = get_module_name_string name in
    let (alive, fresh, after) = connect_to-started m name {id = started} {port = port} e in
    let m1 = (connect_to m name).0 in
    let v1 = connect_to-IsValid m name v in
    let c : TryConnectCounter = new_counter id in
    let counted : counter_of m1 id ≡ some c =
      ap (λ k. counter_of k id) after
      ∙ counted_after_add m.try_connect_counters id v.counters_sorted fresh in
    let (events, again) =
      on_error_connect-counted m1 now id {c = c} v1 (ap (λ k. k.is_exit) after ∙ alive) other
        (ap get_module_name_string back) counted (omega arith) in
    (
      events,
      connect_to-counted _ name (
          run-counter user_name check_fire_connector (on_error_connect m1 now id).0 is id
            {c = record c { count = c.count + 1 }} others (on_error_connect-IsValid m1 now id v1)
            again),
    )

-- A connection to the coordinator that fails is tried again: from ten seconds on the next run of
-- `ManagerFunc` starts one attempt, at the coordinator's port, and the run after it none.
manager_func_reconnects :
    (m : IpcModule) (now later last : ℕ)
    → IsValid m
    → m.is_exit ≡ false
    → now + connect_timeout ≤ later
    → let m' = (on_error_connect m now coordinator_ipc_name).0 in
      let (m'', events) = manager_func m' later in
      (events ≡ connect_thread coordinator_ipc_name coordinator_port ∷ [])
      × ((manager_func m'' last).1 ≡ [])
unfolding on_error_connect manager_func
manager_func_reconnects m now later last v alive le =
    ground (arith, str_eq_refl coordinator_ipc_name)
