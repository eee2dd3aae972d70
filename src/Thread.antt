-- ===== src/Thread.antt =====
-- src/cpp/lib/thread_lib: the timers of the process.
pub mod Timer
pub mod Life
pub mod Semaphore
