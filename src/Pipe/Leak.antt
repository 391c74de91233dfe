-- ===== src/Pipe/Leak.antt =====
-- A killed reader keeps the pipe's lock.
use uw_cse451_operating_syst.Base.{
  refl, zero, suc, arith, Bool, List, true, ◌<◌, ◌≢◌, false, ◌≡◌, ℕ,
}
use uw_cse451_operating_syst.Pipe.{read_failed, Pipe, finish_read, read_loop, pipe_write, pipe_read}
use uw_cse451_operating_syst.Base.Outcome.{panic, done}

-- A process that is killed and reads at least one byte from a pipe that is not empty fails with the
-- lock of the pipe still taken; from then on every write and every read that reaches the lock
-- panics.
pub killed_read_keeps_lock :
    (ref n : ℕ) (p : Pipe)
    → p.locked ≡ false
    → p.head ≢ p.tail
    → 0 < n
    → (q : Pipe) × (pipe_read ref p.read_fd true n p ≡ done (read_failed q))
      × (q.locked ≡ true)
      × ((r : ℕ) (vs : List ℕ) (res : ℕ) → pipe_write r vs res q ≡ panic)
      × ((r : ℕ) (b : Bool) (m : ℕ) → pipe_read r q.read_fd b m q ≡ panic)
unfolding pipe_read pipe_write read_loop finish_read
killed_read_keeps_lock ref zero p free more some_bytes = absurd (omega arith)
killed_read_keeps_lock ref (suc n) p free more some_bytes =
    (record p { locked = true }, ground arith, refl, λ r vs res. refl, λ r b m. ground arith)
