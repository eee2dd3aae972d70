-- ===== src/Thread/Semaphore.antt =====
-- src/cpp/include/semaphore.h: `Semaphore` outside Windows. `sem_timedwait` is an argument, with what
-- POSIX says of it as a hypothesis.
use twainet.Prelude.{ℕ, ◌+◌, ◌-◌, ◌*◌, ◌≤◌, ◌<◌, ◌≡◌, Bool, true, false, ltb}

-- What `sem_timedwait` answers: the semaphore was decremented, or the error is `ETIMEDOUT`, or
-- `EINVAL`.
pub data TimedWait : Type 0 where
  taken timed_out invalid : TimedWait

-- `sem_timedwait(sem, {sec, nsec})` at a count of the semaphore.
abbrev pub SemTimedwait : Type 0
SemTimedwait = ℕ → ℕ → ℕ → TimedWait

abbrev pub is_timed_out : TimedWait → Bool
is_timed_out taken = false
is_timed_out timed_out = true
is_timed_out invalid = false

-- POSIX: a semaphore that can be decremented at once never times out, and with a valid time it is
-- decremented. Otherwise a `nsec` of 1000 million or more is invalid, and an absolute time that has
-- passed, with `clock` the seconds since the Epoch, times out.
pub record IsPosix (clock : ℕ) (sem_timedwait : SemTimedwait) : Type 0 where
  pub no_timeout :
      (count sec nsec : ℕ) → 0 < count → is_timed_out (sem_timedwait count sec nsec) ≡ false
  pub taken_at_once :
      (count sec nsec : ℕ) → 0 < count → nsec < 1000000000 → sem_timedwait count sec nsec ≡ taken
  pub invalid_nsec : (sec nsec : ℕ) → 1000000000 ≤ nsec → sem_timedwait 0 sec nsec ≡ invalid
  pub past_times_out :
      (sec nsec : ℕ) → nsec < 1000000000 → sec < clock → sem_timedwait 0 sec nsec ≡ timed_out

-- `Semaphore::WaitStatus`.
pub data WaitStatus : Type 0 where
  wait_timeout wait_failed wait_success : WaitStatus

-- `Set`.
unfoldable set_semaphore : ℕ → ℕ
set_semaphore count = count + 1

-- `Release`.
unfoldable release_semaphore : ℕ → ℕ
release_semaphore count = count - 1

-- `Wait(timeout)` with a timeout in milliseconds: what is answered. The count is as before, since
-- `sem_post` follows a success.
unfoldable pub wait_semaphore : SemTimedwait → ℕ → ℕ → WaitStatus
wait_semaphore sem_timedwait count timeout =
    elim (sem_timedwait count timeout (timeout * 1000000)) [
      | taken ↦ wait_success
      | timed_out ↦ wait_timeout
      | invalid ↦ wait_failed
    ]

-- `IsSet`.
unfoldable is_set : ℕ → Bool
is_set count = ltb 0 count
