-- ===== src/Thread/Life/Stop.antt =====
-- What becomes of `Start` and `StopThread`.
use twainet.Prelude.{◌<◌, ◌≡◌, refl, Bool, true, false, not, ◌&&◌, List, [], ◌∷◌, arith, All}
use twainet.Thread.Life.{
  Thread, starting, created, new_thread, is_stopped, is_stop, is_running, start_locked,
  create_thread, thread_proc_begin, thread_proc_end, stop_thread, wait_run, Action, starts, begins,
  ends, stops, creates, act, run,
}
use twainet.Thread.Life.Invariant.{is_in_func, is_idle, run-is_consistent}

abbrev pub is_end : Action → Bool
is_end starts = false
is_end begins = false
is_end ends = true
is_end stops = false
is_end (creates made) = false

abbrev pub is_start : Action → Bool
is_start starts = true
is_start begins = false
is_start ends = false
is_start stops = false
is_start (creates made) = false

abbrev is_stopping : Thread → Bool
is_stopping t = is_stop t && is_in_func t.phase

act-is_stopping :
    (t : Thread) (a : Action)
    → is_stopping t ≡ true
    → is_end a ≡ false
    → is_stopping (act t a) ≡ true
unfolding act start_locked create_thread thread_proc_begin thread_proc_end stop_thread
act-is_stopping t starts h e = ground (arith, h)
act-is_stopping t (creates made) h e = ground (arith, h)
act-is_stopping t begins h e = ground (arith, h)
act-is_stopping t ends h e = ground (arith, e)
act-is_stopping t stops h e = ground (arith, h)

run-is_stopping :
    (t : Thread) (actions : List Action)
    → is_stopping t ≡ true
    → All (λ a. is_end a ≡ false) actions
    → is_stopping (run t actions) ≡ true
unfolding run
run-is_stopping t [] h e = h
run-is_stopping t (a ∷ actions) h e =
    run-is_stopping (act t a) actions (act-is_stopping t a h e.0) e.1

-- A thread that is told to stop while it is in its function sees it, whatever is done with the
-- object, until the function ends.
pub stop_thread_seen :
    (before actions : List Action)
    → is_in_func (run new_thread before).phase ≡ true
    → All (λ a. is_end a ≡ false) actions
    → is_stop (run (stop_thread (run new_thread before)) actions) ≡ true
unfolding stop_thread
stop_thread_seen before actions h e =
    let t = run new_thread before in
    ground (
      arith,
      run-is_stopping (stop_thread t) actions
          (ground (arith, h, run-is_consistent new_thread before refl)) e,
    )

-- A thread that is told to stop after the system has made it and before it runs does not see it: it
-- runs as if it had not been told, and so it stays until it is told again or its function ends.
stop_thread_lost :
    (before : List Action)
    → (run new_thread before).phase ≡ created
    → let t = act (act (run new_thread before) stops) begins in
      (is_stop t ≡ false) × (is_running t ≡ true) × (t ≡ act (run new_thread before) begins)
unfolding act stop_thread thread_proc_begin
stop_thread_lost before h = ground (arith, h)

-- `Start` waits until `WaitRun` is true.
act_start_semaphore :
    (t : Thread) (a : Action)
    → 0 < t.start_semaphore
    → is_start a ≡ false
    → 0 < (act t a).start_semaphore
unfolding act create_thread thread_proc_begin thread_proc_end stop_thread
act_start_semaphore t starts h e = ground (arith, e)
act_start_semaphore t (creates made) h e = ground (arith, h)
act_start_semaphore t begins h e = ground (arith, h)
act_start_semaphore t ends h e = ground (arith, h)
act_start_semaphore t stops h e = ground (arith, h)

run_start_semaphore :
    (t : Thread) (actions : List Action)
    → 0 < t.start_semaphore
    → All (λ a. is_start a ≡ false) actions
    → 0 < (run t actions).start_semaphore
unfolding run
run_start_semaphore t [] h e = h
run_start_semaphore t (a ∷ actions) h e =
    run_start_semaphore (act t a) actions (act_start_semaphore t a h e.0) e.1

-- A thread that the system has not made for `Start` can not be started and is never stopped.
abbrev is_stuck : Thread → Bool
is_stuck t = not (is_stopped t) && is_idle t.phase

act-is_stuck : (t : Thread) (a : Action) → is_stuck t ≡ true → is_stuck (act t a) ≡ true
unfolding act start_locked create_thread thread_proc_begin thread_proc_end stop_thread
act-is_stuck t starts h = ground (arith, h)
act-is_stuck t (creates made) h = ground (arith, h)
act-is_stuck t begins h = ground (arith, h)
act-is_stuck t ends h = ground (arith, h)
act-is_stuck t stops h = ground (arith, h)

run-is_stuck :
    (t : Thread) (actions : List Action) → is_stuck t ≡ true → is_stuck (run t actions) ≡ true
unfolding run
run-is_stuck t [] h = h
run-is_stuck t (a ∷ actions) h = run-is_stuck (act t a) actions (act-is_stuck t a h)

-- Where the system makes the thread that `Start` asks for, `Start` has its answer from the moment
-- that the thread begins and up to the next start, even if the thread is told to stop or ends in
-- between. Where the system makes none, the object is never stopped again, and every later
-- `Start` answers false.
pub create_thread-wait_run :
    (before actions later : List Action)
    → (run new_thread before).phase ≡ starting
    → All (λ a. is_start a ≡ false) actions
    → let t = run new_thread before in
      let failed = run (act t (creates false)) later in
      (wait_run (run (act (act t (creates true)) begins) actions) ≡ true)
      × (is_stopped failed ≡ false)
      × ((start_locked failed).1 ≡ false)
unfolding act create_thread thread_proc_begin start_locked wait_run
create_thread-wait_run before actions later h e =
    let t = run new_thread before in
    let begun = act (act t (creates true)) begins in
    ground (
      arith,
      run_start_semaphore begun actions (ground (arith, h)) e,
      run-is_stuck (act t (creates false)) later
          (ground (arith, h, run-is_consistent new_thread before refl)),
    )
