-- ===== src/Thread/Timer/Tests.antt =====
-- The theorems on timers at a process with two timers.
use twainet.Prelude.{◌≡◌, some, [], ◌∷◌, arith}
use twainet.Thread.Timer.{Timers, begin_create, end_create, timer_proc}
use twainet.Thread.Timer.Ids.{IsAbove}
use twainet.Thread.Timer.Create.{create_timer_overlapped}

abbrev timers : Timers
timers =
    (1, record { proc = 7; system_id = 70; timer_id = 1 })
    ∷ (3, record { proc = 8; system_id = 80; timer_id = 3 })
    ∷ []

timers-IsAbove : IsAbove 0 timers
timers-IsAbove = (omega arith, (omega arith, tt))

create_timer_overlapped_example :
    let first = begin_create timers in
    let second = begin_create timers in
    let (timers1, id) = end_create timers first 9 (some 90) in
    let (timers2, id') = end_create timers1 second 10 (some 100) in
    (id ≡ id') × (timers2 ≡ timers1) × (timer_proc timers2 id' ≡ some 9)
create_timer_overlapped_example = create_timer_overlapped timers 9 10 90 100 timers-IsAbove
