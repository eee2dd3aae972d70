-- ===== src/Thread/Life.antt =====
-- src/cpp/lib/thread_lib/thread/thread.cpp: `Thread`, one object and the system's thread that runs it,
-- outside Windows. What the two do between two locks is one action, so that a run is a sequence of
-- actions in any order. Whether the system makes a thread is an argument.
pub mod Invariant
pub mod Stop
pub mod Manager
mod Tests
use twainet.Prelude.{ℕ, ◌+◌, ◌-◌, ltb, Bool, true, false, not, List, [], ◌∷◌, if◌then◌else◌}

-- `Thread::ThreadState`.
pub data ThreadState : Type 0 where
  thread_stopped thread_running thread_stop_pending thread_start_pending : ThreadState

-- Where the threads that run the object are: none; one is in `Start`, behind the lock; the system has
-- made a thread; and that is in `OnStart`, `ThreadFunc` or `OnStop`.
pub data Phase : Type 0 where
  idle starting created in_func : Phase

-- The counts of the two semaphores are `start_semaphore` and `stop_semaphore`.
pub record Thread : Type 0 where
  pub state : ThreadState
  pub phase : Phase
  pub start_semaphore : ℕ
  pub stop_semaphore : ℕ

-- The constructor.
abbrev pub new_thread : Thread
new_thread = record {
  state = thread_stopped;
  phase = idle;
  start_semaphore = 0;
  stop_semaphore = 0;
}

-- `IsStopped`.
abbrev pub is_stopped : Thread → Bool
is_stopped t = elim t.state [
  | thread_stopped ↦ true
  | thread_running ↦ false
  | thread_stop_pending ↦ false
  | thread_start_pending ↦ false
]

-- `IsStop`.
abbrev pub is_stop : Thread → Bool
is_stop t = elim t.state [
  | thread_stopped ↦ false
  | thread_running ↦ false
  | thread_stop_pending ↦ true
  | thread_start_pending ↦ false
]

-- `IsRunning`.
abbrev pub is_running : Thread → Bool
is_running t = elim t.state [
  | thread_stopped ↦ false
  | thread_running ↦ true
  | thread_stop_pending ↦ false
  | thread_start_pending ↦ false
]

-- `Start` up to the end of its lock: the object, and whether `Start` goes on.
pub start_locked : Thread → Thread × Bool
start_locked t = if not (is_stopped t) then (t, false) else (
  record t {
    state = thread_start_pending;
    phase = starting;
    start_semaphore = t.start_semaphore - 1;
    stop_semaphore = t.stop_semaphore - 1;
  },
  true,
)

-- The call of `pthread_create` in `Start`.
pub create_thread : Thread → Bool → Thread
create_thread t made = elim t.phase [
  | idle ↦ t
  | starting ↦ record t { phase = if made then created else idle }
  | created ↦ t
  | in_func ↦ t
]

-- The first block of `ThreadProc`.
pub thread_proc_begin : Thread → Thread
thread_proc_begin t = elim t.phase [
  | idle ↦ t
  | starting ↦ t
  | created ↦ record t {
    state = thread_running;
    phase = in_func;
    start_semaphore = t.start_semaphore + 1;
  }
  | in_func ↦ t
]

-- The last block of `ThreadProc`.
pub thread_proc_end : Thread → Thread
thread_proc_end t = elim t.phase [
  | idle ↦ t
  | starting ↦ t
  | created ↦ t
  | in_func ↦ record t {
    state = thread_stopped;
    phase = idle;
    stop_semaphore = t.stop_semaphore + 1;
  }
]

-- `StopThread`.
pub stop_thread : Thread → Thread
stop_thread t = if not (is_stopped t) then record t { state = thread_stop_pending } else t

-- `WaitRun`, where the semaphore is not awaited in vain.
pub wait_run : Thread → Bool
wait_run t = if not (is_running t) then ltb 0 t.start_semaphore else true

-- `WaitStop`.
unfoldable wait_stop : Thread → Bool
wait_stop t = if not (is_stopped t) then ltb 0 t.stop_semaphore else true

-- An action of any thread of the process on the object.
pub data Action : Type 0 where
  starts begins ends stops : Action
  creates : Bool → Action

pub act : Thread → Action → Thread
act t starts = (start_locked t).0
act t (creates made) = create_thread t made
act t begins = thread_proc_begin t
act t ends = thread_proc_end t
act t stops = stop_thread t

unfoldable pub run : Thread → List Action → Thread
run t [] = t
run t (a ∷ rest) = run (act t a) rest
