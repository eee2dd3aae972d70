-- ===== src/Thread/Life/Invariant.antt =====
-- What the state of a thread says of the system's thread.
use twainet.Prelude.{◌≡◌, Bool, true, false, not, ◌&&◌, ◌||◌, List, [], ◌∷◌, arith}
use twainet.Thread.Life.{
  Thread, Phase, idle, starting, created, in_func, is_stopped, is_running, start_locked,
  create_thread, thread_proc_begin, thread_proc_end, stop_thread, Action, starts, begins, ends,
  stops, creates, act, run,
}

abbrev pub is_idle : Phase → Bool
is_idle idle = true
is_idle starting = false
is_idle created = false
is_idle in_func = false

abbrev pub is_in_func : Phase → Bool
is_in_func idle = false
is_in_func starting = false
is_in_func created = false
is_in_func in_func = true

-- A thread that is stopped is run by none, and one that is running is in its function.
abbrev pub is_consistent : Thread → Bool
is_consistent t =
    (not (is_stopped t) || is_idle t.phase) && (not (is_running t) || is_in_func t.phase)

act-is_consistent :
    (t : Thread) (a : Action) → is_consistent t ≡ true → is_consistent (act t a) ≡ true
unfolding act start_locked create_thread thread_proc_begin thread_proc_end stop_thread
act-is_consistent t starts h = ground (arith, h)
act-is_consistent t (creates made) h = ground (arith, h)
act-is_consistent t begins h = ground (arith, h)
act-is_consistent t ends h = ground (arith, h)
act-is_consistent t stops h = ground (arith, h)

pub run-is_consistent :
    (t : Thread) (actions : List Action)
    → is_consistent t ≡ true
    → is_consistent (run t actions) ≡ true
unfolding run
run-is_consistent t [] h = h
run-is_consistent t (a ∷ actions) h = run-is_consistent (act t a) actions (act-is_consistent t a h)
