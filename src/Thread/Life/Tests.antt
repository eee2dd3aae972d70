-- ===== src/Thread/Life/Tests.antt =====
-- The theorems on threads that have been started, stopped and ended.
use twainet.Prelude.{◌≡◌, refl, true, false, List, [], ◌∷◌}
use twainet.Thread.Life.{
  new_thread, is_stopped, is_stop, wait_run, start_locked, create_thread, thread_proc_begin,
  stop_thread, Action, starts, begins, ends, stops, creates, act, run,
}
use twainet.Thread.Life.Stop.{stop_thread_seen, create_thread-wait_run}

abbrev made : List Action
made = starts ∷ creates true ∷ []

abbrev running : List Action
running = starts ∷ creates true ∷ begins ∷ []

stop_thread_seen_example :
    is_stop (run (stop_thread (run new_thread running)) (stops ∷ starts ∷ [])) ≡ true
unfolding run act start_locked create_thread thread_proc_begin
stop_thread_seen_example = stop_thread_seen running (stops ∷ starts ∷ []) refl (refl, (refl, tt))

create_thread-wait_run_example :
    let t = run new_thread (starts ∷ []) in
    let failed = run (act t (creates false)) (starts ∷ stops ∷ []) in
    (wait_run (run (act (act t (creates true)) begins) (stops ∷ ends ∷ [])) ≡ true)
    × (is_stopped failed ≡ false)
    × ((start_locked failed).1 ≡ false)
unfolding run act start_locked
create_thread-wait_run_example =
    create_thread-wait_run (starts ∷ []) (stops ∷ ends ∷ []) (starts ∷ stops ∷ []) refl
      (refl, (refl, tt))
