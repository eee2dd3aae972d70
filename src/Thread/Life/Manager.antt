-- ===== src/Thread/Life/Manager.antt =====
-- src/cpp/lib/thread_lib/thread/thread_manager.cpp: `ThreadManager`, which deletes the threads that
-- have stopped. The `ObjectManager` of pointers is a list of the threads behind them, sorted by
-- address. `ManagerStop`, which waits for each thread, is not here.
use twainet.Prelude.{
  ℕ, ◌≡◌, refl, Bool, true, false, List, [], ◌∷◌, ◌++◌, ◌==◌, ltb, arith, if◌then◌else◌,
  append_assoc, append-nil, All,
}
use twainet.Order.{Order, IsOrder}
use twainet.ObjectManager.{add_object, check_objects}
use twainet.ObjectManager.Scan.{check_ref, check_objects-check_ref}
use twainet.Thread.Life.{Thread, Action, new_thread, is_stopped, stop_thread, run}
use twainet.Thread.Life.Invariant.{is_idle, run-is_consistent}

pub record ManagedThread : Type 0 where
  pub address : ℕ
  pub life : Thread

pub managed_lt : ManagedThread → ManagedThread → Bool
managed_lt a b = ltb a.address b.address

pub managed_eq : ManagedThread → ManagedThread → Bool
managed_eq a b = a.address == b.address

pub managed-IsOrder : IsOrder managed_lt managed_eq
unfolding managed_lt managed_eq
managed-IsOrder = record {
  eq_refl = λ a. ground arith;
  eq_sym = λ a b. ground arith;
  eq_trans = λ a b c. ground arith;
  lt_not_eq = λ a b. ground arith;
  lt_trans = λ a b c. ground arith;
  lt_eq = λ a b c. ground arith;
  eq_lt = λ a b c. ground arith;
  lt_total = λ a b. ground arith;
}

instance abbrev pub managed_order : Order ManagedThread
managed_order = record { lt = managed_lt; eqb = managed_eq; lawful = managed-IsOrder }

-- `AddThread`.
unfoldable add_thread : List ManagedThread → ManagedThread → List ManagedThread
add_thread threads thread = (add_object threads thread).0

-- `RemoveThread`.
unfoldable remove_thread : ManagedThread → ManagedThread
remove_thread thread = record thread { life = stop_thread thread.life }

-- `CheckThread`.
pub check_thread : List ManagedThread → ManagedThread → List ManagedThread × Bool
check_thread threads thread =
    if is_stopped thread.life then (threads ++ thread ∷ [], true) else (threads, false)

-- `ManagerFunc`: the threads that are left, and those that are deleted.
pub thread_manager_func : List ManagedThread → List ManagedThread × List ManagedThread
unfolding check_thread
thread_manager_func threads =
    let (deleted, left) = check_objects check_thread [] threads in (left, deleted)

-- The objects at these addresses after these actions.
abbrev pub managed : List (ℕ × List Action) → List ManagedThread
managed [] = []
managed ((address, actions) ∷ rest) =
    record { address = address; life = run new_thread actions } ∷ managed rest

-- Those that have stopped, and the others.
abbrev pub finished : List ManagedThread → List ManagedThread
finished [] = []
finished (t ∷ ts) = if is_stopped t.life then t ∷ finished ts else finished ts

abbrev pub unfinished : List ManagedThread → List ManagedThread
unfinished [] = []
unfinished (t ∷ ts) = if is_stopped t.life then unfinished ts else t ∷ unfinished ts

check_ref-check_thread :
    (deleted threads : List ManagedThread)
    → check_ref check_thread deleted threads ≡ (deleted ++ finished threads, unfinished threads)
unfolding check_ref check_thread
check_ref-check_thread deleted [] = ground (arith, append-nil deleted)
check_ref-check_thread deleted (t ∷ ts) = ground (
  arith,
  check_ref-check_thread deleted ts,
  check_ref-check_thread (deleted ++ t ∷ []) ts,
  append_assoc deleted (t ∷ []) (finished ts),
)

finished-is_idle :
    (runs : List (ℕ × List Action))
    → All (λ t. is_idle t.life.phase ≡ true) (finished (managed runs))
finished-is_idle [] = tt
finished-is_idle ((address, actions) ∷ runs) =
    ground (arith, finished-is_idle runs, run-is_consistent new_thread actions refl)

-- `ManagerFunc` deletes exactly the objects that have stopped, in order, and keeps the others. No
-- thread of the system runs an object that it deletes or is about to, whatever was done with the
-- objects before.
thread_manager_func-is_idle :
    (runs : List (ℕ × List Action))
    → let threads = managed runs in
      let (left, deleted) = thread_manager_func threads in
      (left ≡ unfinished threads)
      × (deleted ≡ finished threads)
      × All (λ t. is_idle t.life.phase ≡ true) deleted
unfolding thread_manager_func
thread_manager_func-is_idle runs =
    let threads = managed runs in
    ground (
      arith,
      check_objects-check_ref check_thread [] threads,
      check_ref-check_thread [] threads,
      finished-is_idle runs,
    )
