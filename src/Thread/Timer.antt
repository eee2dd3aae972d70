-- ===== src/Thread/Timer.antt =====
-- src/cpp/lib/thread_lib/common/timer.cpp: `TimerManager`, and the part of `Timer` that registers with
-- it (not on Windows). `m_timers`, a std::map in the order of its keys, is a list of entries sorted by
-- id. Whether the system's calls succeed is an argument. Each function here is one critical section, or
-- is called without a lock: what another thread does in between is a step of its own.
pub mod Ids
pub mod Create
mod Tests
use twainet.Prelude.{
  ℕ, zero, suc, ◌+◌, Bool, true, false, not, ◌&&◌, Option, none, some, List, [], ◌∷◌, ◌==◌, ltb,
  if◌then◌else◌,
}

-- `Timer`: the number of its procedure and of the system's timer.
pub record Timer : Type 0 where
  pub proc : ℕ
  pub system_id : ℕ
  pub timer_id : ℕ

abbrev pub Timers : Type 0
Timers = List (ℕ × Timer)

-- The loop of `GetNextTimerId`.
pub next_id_from : ℕ → Timers → ℕ
next_id_from id [] = id
next_id_from id ((key, timer) ∷ timers) =
    let rest = next_id_from (id + 1) timers in if not (id == key) then id else rest

-- `GetNextTimerId`.
pub get_next_timer_id : Timers → ℕ
unfolding next_id_from
get_next_timer_id timers = next_id_from 1 timers

-- `AddTimer`: `map::insert` keeps an entry that is there.
pub add_timer : Timers → ℕ → Timer → Timers
add_timer [] id timer = (id, timer) ∷ []
add_timer ((key, old) ∷ timers) id timer =
    let rest = add_timer timers id timer in
    if id == key
    then (key, old) ∷ timers
    else if ltb id key
    then (id, timer) ∷ (key, old) ∷ timers
    else (key, old) ∷ rest

-- `GetTimer`; `none` is `Timer()`, which has no procedure.
pub get_timer : Timers → ℕ → Option Timer
get_timer [] id = none
get_timer ((key, timer) ∷ timers) id = if key == id then some timer else get_timer timers id

-- `RemoveTimer`.
pub remove_timer : Timers → ℕ → Timers
remove_timer [] id = []
remove_timer ((key, timer) ∷ timers) id =
    let rest = remove_timer timers id in if key == id then timers else (key, timer) ∷ rest

-- `Timer::Create` up to the system's calls: the id that it takes.
abbrev pub begin_create : Timers → ℕ
begin_create timers = get_next_timer_id timers

-- The rest of `Timer::Create`: `system_id` is the system's timer, and `none` a call that failed. The
-- result of `CreateTimer` is the timer's id in both cases.
pub end_create : Timers → ℕ → ℕ → Option ℕ → Timers × ℕ
unfolding add_timer
end_create timers id proc system_id = elim system_id [
  | none ↦ (timers, id)
  | some s ↦ (add_timer timers id (record { proc = proc; system_id = s; timer_id = id }), id)
]

-- `CreateTimer`, undisturbed.
pub create_timer : Timers → ℕ → Option ℕ → Timers × ℕ
unfolding end_create
create_timer timers proc system_id = end_create timers (begin_create timers) proc system_id

-- `DeleteTimer`, with `Timer::Destroy`: the timers, and the system's timer that is deleted.
unfoldable delete_timer : Timers → ℕ → Timers × Option ℕ
unfolding remove_timer
delete_timer timers id = elim (get_timer timers id) [
  | none ↦ (timers, none)
  | some timer ↦
      if timer.timer_id == 0
      then (timers, none)
      else (remove_timer timers timer.timer_id, some timer.system_id)
]

-- `TimerProc`: the procedure that is called when the timer of the id fires.
pub timer_proc : Timers → ℕ → Option ℕ
unfolding get_timer
timer_proc timers id = elim (get_timer timers id) [ none ↦ none | some timer ↦ some timer.proc ]

-- `ManagerStop`: all timers are taken out, and the system's timer of each is deleted.
unfoldable stop_timers : Timers → Timers × List ℕ
stop_timers [] = ([], [])
stop_timers ((key, timer) ∷ timers) =
    let (left, deleted) = stop_timers timers in
    (left, if timer.timer_id == 0 then deleted else timer.system_id ∷ deleted)
