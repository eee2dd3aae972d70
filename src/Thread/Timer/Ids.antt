-- ===== src/Thread/Timer/Ids.antt =====
-- The ids that `GetNextTimerId` gives.
use twainet.Prelude.{ℕ, ◌+◌, ◌≤◌, ◌<◌, ◌≡◌, ◌≢◌, refl, none, [], ◌∷◌, arith}
use twainet.Thread.Timer.{Timers, next_id_from, get_next_timer_id, get_timer}

-- The ids are increasing, and each is greater than `n`.
abbrev pub IsAbove : ℕ → Timers → Type 0
IsAbove n [] = Unit
IsAbove n ((key, timer) ∷ timers) = (n < key) × IsAbove key timers

pub get_timer-IsAbove :
    (timers : Timers) (n id : ℕ) → IsAbove n timers → id ≤ n → get_timer timers id ≡ none
unfolding get_timer
get_timer-IsAbove [] n id s le = refl
get_timer-IsAbove ((key, timer) ∷ timers) n id s le =
    ground (arith, get_timer-IsAbove timers key id s.1 (omega arith))

next_id_from-fresh :
    (timers : Timers) (n : ℕ)
    → IsAbove n timers
    → (n < next_id_from (n + 1) timers) × (get_timer timers (next_id_from (n + 1) timers) ≡ none)
unfolding next_id_from get_timer
next_id_from-fresh [] n s = (omega arith, refl)
next_id_from-fresh ((key, timer) ∷ timers) n s =
    ground (arith, next_id_from-fresh timers key s.1, get_timer-IsAbove timers key (n + 1))

next_id_from-least :
    (timers : Timers) (n id : ℕ)
    → IsAbove n timers
    → n < id
    → id < next_id_from (n + 1) timers
    → get_timer timers id ≢ none
unfolding next_id_from get_timer
next_id_from-least [] n id s lo hi = absurd (omega arith)
next_id_from-least ((key, timer) ∷ timers) n id s lo hi =
    ground (arith, next_id_from-least timers key id s.1)

-- With positive ids in increasing order the next id is the least positive one that is not in use.
pub get_next_timer_id_lem :
    (timers : Timers) (id : ℕ)
    → IsAbove 0 timers
    → (0 < get_next_timer_id timers)
      × (get_timer timers (get_next_timer_id timers) ≡ none)
      × (0 < id → id < get_next_timer_id timers → get_timer timers id ≢ none)
unfolding get_next_timer_id
get_next_timer_id_lem timers id s =
    let (pos, new) = next_id_from-fresh timers 0 s in (pos, new, next_id_from-least timers 0 id s)
