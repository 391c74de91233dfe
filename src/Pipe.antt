-- ===== src/Pipe.antt =====
-- The pipe of kernel/file.c: the branches of `fileread` and `filewrite` for a pipe, over the ring
-- buffer in `struct pipe` (inc/file.h). A call runs up to the point where it returns or goes to
-- sleep; a sleeping call is resumed by running it again on what it has left.
pub mod Contents
pub mod Write
pub mod Transfer
pub mod Leak
pub mod Read
use uw_cse451_operating_syst.Base.{
  ℕ, zero, suc, ◌+◌, ◌-◌, ◌%◌, ◌^◌, Bool, true, false, not, Option, none, some, List, [], ◌∷◌, ◌++◌,
  ◌==◌, if◌then◌else◌, ◌≡◌,
}
use uw_cse451_operating_syst.Base.Outcome.{Outcome, done, panic}

-- `sizeof(buf)`
abbrev pub pipe_size : ℕ
pipe_size = 2048

-- `head` and `tail` are `int`s that only grow, here as 32-bit words. Behind 2^31 - 1 bytes they are
-- negative in C, and so are the indices `head % size` and `tail % size`, which stand in front of the
-- buffer: there the model does not follow the code. `locked` is the spin lock.
-- The fields `full` and `empty` are set by `pipe` and read by nobody.
pub record Pipe : Type 0 where
  pub locked : Bool
  pub read_fd : ℕ
  pub write_fd : ℕ
  pub head : ℕ
  pub tail : ℕ
  pub full : Bool
  pub empty : Bool
  pub buf : ℕ → ℕ

abbrev pub put : (ℕ → ℕ) → ℕ → ℕ → ℕ → ℕ
put f i v j = if i == j then v else f j

abbrev pub increment : ℕ → ℕ
increment n = (n + 1) % 2 ^ 32

-- `tail - head`
abbrev pub used : Pipe → ℕ
used p = (p.tail + 2 ^ 32 - p.head) % 2 ^ 32

-- The two channels on which a call sleeps or wakes others: `&read_fd` and `&write_fd`.
pub data PipeEnd : Type 0 where
  read_end write_end : PipeEnd

-- How a call stands when it leaves the processor. `returned` carries the `int` result, `none` for
-- -1, and whom it woke; `asleep` what the call has left: the bytes to write or the number to read,
-- and the count of bytes done.
pub data Stop (A : Type 0) : Type 0 where
  returned : Option ℕ → Option PipeEnd → Pipe → Stop A
  asleep : A → ℕ → (on woken : PipeEnd) → Pipe → Stop A

abbrev pub store_byte : ℕ → Pipe → Pipe
store_byte v p = record p { buf = put p.buf (p.tail % pipe_size) v; tail = increment p.tail }

abbrev pub unlock : Pipe → Pipe
unlock p = record p { locked = false }

-- The loop of `filewrite`, with the lock held. `ref` is the reference count of the file.
unfoldable pub write_loop : (ref : ℕ) → List ℕ → (res : ℕ) → Pipe → Stop (List ℕ)
write_loop ref [] res p = returned (some res) (some read_end) (unlock p)
write_loop ref (v ∷ vs) res p =
    let rest = write_loop ref vs (res + 1) (store_byte v p) in
    if used p == pipe_size
    then asleep (v ∷ vs) res write_end read_end (unlock p)
    else if ref == 1
    then returned none none (unlock p)
    else rest

unfoldable pub pipe_write : (ref : ℕ) → List ℕ → (res : ℕ) → Pipe → Outcome (Stop (List ℕ))
pipe_write ref vs res p =
    if p.locked then panic else done (write_loop ref vs res (record p { locked = true }))

-- The second loop of `fileread`: at most `n` bytes, which are collected in `out`. A killed process
-- returns from here without giving the lock back.
unfoldable pub read_loop : (killed : Bool) → (n : ℕ) → List ℕ → Pipe → Option (List ℕ) × Pipe
read_loop killed zero out p = (some out, p)
read_loop killed (suc n) out p =
    let rest =
      read_loop killed n (out ++ p.buf (p.head % pipe_size) ∷ [])
        (record p { head = increment p.head }) in
    if killed then (none, p) else if p.head == p.tail then (some out, p) else rest

-- What `fileread` gives its caller: the result, the bytes that it left in the buffer, whom it woke.
pub data ReadStop : Type 0 where
  read_done : List ℕ → Pipe → ReadStop
  read_failed : Pipe → ReadStop
  read_end_of_file : Pipe → ReadStop
  read_asleep : Pipe → ReadStop

finish_read : Option (List ℕ) × Pipe → ReadStop
finish_read (some out, p) = read_done out (unlock p)
finish_read (none, p) = read_failed p

-- The pipe branch of `fileread` on descriptor `fd`, from the first loop on. With `read_done` the
-- write end is woken; with `read_asleep` the write end is woken and the caller sleeps on the read
-- end.
unfoldable pub pipe_read : (ref fd : ℕ) → (killed : Bool) → (n : ℕ) → Pipe → Outcome ReadStop
unfolding finish_read
pipe_read ref fd killed n p =
    if not (p.read_fd == fd)
    then done (read_failed p)
    else if p.locked
    then panic
    else if p.head == p.tail
    then (if killed
        then done (read_failed p)
        else if ref == 1
        then done (read_end_of_file p)
        else done (read_asleep p))
    else done (finish_read (read_loop killed n [] (record p { locked = true })))
