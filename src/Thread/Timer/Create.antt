-- ===== src/Thread/Timer/Create.antt =====
-- Creating a timer: undisturbed, refused by the system, and while another thread creates one.
use twainet.Prelude.{ℕ, ◌<◌, ◌≡◌, ◌≢◌, ◌∙◌, none, some, [], ◌∷◌, arith, if◌then◌else◌, ◌==◌}
use twainet.Thread.Timer.{
  Timer, Timers, add_timer, get_timer, remove_timer, begin_create, end_create, create_timer,
  timer_proc,
}
use twainet.Thread.Timer.Ids.{IsAbove, get_timer-IsAbove, get_next_timer_id_lem}

add_timer-IsAbove :
    (timers : Timers) (n id : ℕ) (timer : Timer)
    → IsAbove n timers
    → n < id
    → IsAbove n (add_timer timers id timer)
unfolding add_timer
add_timer-IsAbove [] n id timer s lt = (lt, tt)
add_timer-IsAbove ((key, old) ∷ timers) n id timer s lt =
    ground (arith, add_timer-IsAbove timers key id timer s.1)

remove_timer-IsAbove :
    (timers : Timers) (n id : ℕ) → IsAbove n timers → IsAbove n (remove_timer timers id)
unfolding remove_timer
remove_timer-IsAbove [] n id s = tt
remove_timer-IsAbove ((key, old) ∷ timers) n id s =
    ground (arith, remove_timer-IsAbove timers key id s.1, raise timers n key s.0 s.1)
  where
    raise : (timers : Timers) (n k : ℕ) → n < k → IsAbove k timers → IsAbove n timers
    raise [] n k lt s = tt
    raise ((key, old) ∷ timers) n k lt s = (omega arith, s.1)

get_timer-add_timer :
    (timers : Timers) (n id q : ℕ) (timer : Timer)
    → IsAbove n timers
    → get_timer timers id ≡ none
    → get_timer (add_timer timers id timer) q ≡ (if id == q then some timer else get_timer timers q)
unfolding add_timer get_timer
get_timer-add_timer [] n id q timer s fresh = ground arith
get_timer-add_timer ((key, old) ∷ timers) n id q timer s fresh =
    ground (arith, get_timer-add_timer timers key id q timer s.1)

add_timer-present :
    (timers : Timers) (n id : ℕ) (timer : Timer) {old : Timer}
    → IsAbove n timers
    → get_timer timers id ≡ some old
    → add_timer timers id timer ≡ timers
unfolding add_timer get_timer
add_timer-present [] n id timer s e = ground arith
add_timer-present ((key, other) ∷ timers) n id timer {old} s e = ground (
  arith,
  add_timer-present timers key id timer {old = old} s.1,
  get_timer-IsAbove timers key id s.1,
)

-- A timer that is created undisturbed, with the system's calls succeeding, gets an id that is not in
-- use; when it fires its own procedure is called, and the other ids' procedures are as before; the
-- ids stay in order.
create_timer_lem :
    (timers : Timers) (proc system_id other : ℕ)
    → IsAbove 0 timers
    → let (timers', id) = create_timer timers proc (some system_id) in
      (timer_proc timers id ≡ none)
      × (timer_proc timers' id ≡ some proc)
      × (id ≢ other → timer_proc timers' other ≡ timer_proc timers other)
      × IsAbove 0 timers'
unfolding create_timer end_create timer_proc
create_timer_lem timers proc system_id other s =
    let id = begin_create timers in
    let timer : Timer = record { proc = proc; system_id = system_id; timer_id = id } in
    let (pos, fresh, least) = get_next_timer_id_lem timers 0 s in
    ground (
      arith,
      fresh,
      get_timer-add_timer timers 0 id id timer s fresh,
      get_timer-add_timer timers 0 id other timer s fresh,
      add_timer-IsAbove timers 0 id timer s pos,
    )

-- Two threads create a timer, and both take their id before either registers: they get the same id,
-- and when it fires the first one's procedure is called. The second one's never is.
pub create_timer_overlapped :
    (timers : Timers) (proc proc' system_id system_id' : ℕ)
    → IsAbove 0 timers
    → let first = begin_create timers in
      let second = begin_create timers in
      let (timers1, id) = end_create timers first proc (some system_id) in
      let (timers2, id') = end_create timers1 second proc' (some system_id') in
      (id ≡ id') × (timers2 ≡ timers1) × (timer_proc timers2 id' ≡ some proc)
unfolding end_create timer_proc
create_timer_overlapped timers proc proc' system_id system_id' s =
    let id = begin_create timers in
    let timer : Timer = record { proc = proc; system_id = system_id; timer_id = id } in
    let timer' : Timer = record { proc = proc'; system_id = system_id'; timer_id = id } in
    let (pos, fresh, least) = get_next_timer_id_lem timers 0 s in
    let found : get_timer (add_timer timers id timer) id ≡ some timer =
      get_timer-add_timer timers 0 id id timer s fresh ∙ ground arith in
    ground (
      arith,
      found,
      add_timer-present (add_timer timers id timer) 0 id timer' {old = timer}
          (add_timer-IsAbove timers 0 id timer s pos) found,
    )

-- Where the system refuses a timer `CreateTimer` does not answer 0: it answers an id at which no
-- timer is registered, and nothing is changed.
create_timer_refused :
    (timers : Timers) (proc : ℕ)
    → IsAbove 0 timers
    → let (timers', id) = create_timer timers proc none in
      (timers' ≡ timers) × (id ≢ 0) × (timer_proc timers' id ≡ none)
unfolding create_timer end_create timer_proc
create_timer_refused timers proc s =
    let (pos, fresh, least) = get_next_timer_id_lem timers 0 s in ground (arith, fresh, pos)
