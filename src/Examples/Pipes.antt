-- ===== src/Examples/Pipes.antt =====
-- A pipe between descriptors 3 and 4.
use uw_cse451_operating_syst.Base.{
  drop, take, ℕ, ◌+◌, ◌^◌, ◌≤◌, ◌<◌, ◌≡◌, ◌≢◌, refl, Bool, true, false, some, List, [], ◌∷◌, ◌++◌,
  arith, ◌==◌, if◌then◌else◌,
}
use uw_cse451_operating_syst.Pipe.{
  read_done, read_end, read_asleep, read_failed, returned, read_end_of_file, pipe_read, pipe_write,
  Pipe, Stop,
}
use uw_cse451_operating_syst.Pipe.Read.{pipe_read_lem, Drained}
use uw_cse451_operating_syst.Pipe.Contents.{ring, IsPipe, contents}
use uw_cse451_operating_syst.Base.Outcome.{panic, done}
use uw_cse451_operating_syst.Pipe.Leak.{killed_read_keeps_lock}
use uw_cse451_operating_syst.Pipe.Transfer.{read-write}
use uw_cse451_operating_syst.Pipe.Write.{pipe_write-Wrote, Wrote}

abbrev pipe_at : (head tail : ℕ) → Pipe
pipe_at h t = record {
  locked = false;
  read_fd = 3;
  write_fd = 4;
  head = h;
  tail = t;
  full = false;
  empty = true;
  buf = λ i. i;
}

abbrev fresh_pipe : Pipe
fresh_pipe = pipe_at 0 0

-- two bytes, the first at the end of the ring and the second at its start
abbrev wrapped : Pipe
wrapped = pipe_at 2047 2049

wrapped_bytes : contents wrapped ≡ 2047 ∷ 0 ∷ []
unfolding contents ring
wrapped_bytes = refl

pipe_at-IsPipe : (h t : ℕ) → h ≤ t → t ≤ h + 2048 → t < 2 ^ 31 → IsPipe (pipe_at h t)
pipe_at-IsPipe h t a b c = record { ordered = a; bounded = b; small = c }

wrapped-IsPipe : IsPipe wrapped
wrapped-IsPipe = pipe_at-IsPipe 2047 2049 (omega arith) (omega arith) (omega arith)

pipe_read_lem_example :
    (contents wrapped ≡ []
      → pipe_read 2 wrapped.read_fd false 1 wrapped
        ≡ done (if 2 == 1 then read_end_of_file wrapped else read_asleep wrapped))
    × (contents wrapped ≢ []
        → (q : Pipe) × (pipe_read 2 wrapped.read_fd false 1 wrapped
            ≡ done (read_done (take 1 (contents wrapped)) q))
          × Drained wrapped 1 q
          × (q.locked ≡ false))
pipe_read_lem_example = pipe_read_lem 2 1 wrapped refl wrapped-IsPipe

pipe_write-Wrote_example :
    (st : Stop (List ℕ)) × (pipe_write 2 (7 ∷ 8 ∷ []) 0 wrapped ≡ done st)
    × Wrote wrapped (7 ∷ 8 ∷ []) 0 st
pipe_write-Wrote_example =
    pipe_write-Wrote 2 (7 ∷ 8 ∷ []) 0 wrapped refl (omega arith) wrapped-IsPipe (omega arith)

read-write_example :
    (q r : Pipe) × (pipe_write 2 (7 ∷ 8 ∷ []) 0 wrapped
      ≡ done (returned (some 2) (some read_end) q))
    × (pipe_read 2 q.read_fd false 3 q
        ≡ done (read_done (take 3 (contents wrapped ++ 7 ∷ 8 ∷ [])) r))
    × (contents r ≡ drop 3 (contents wrapped ++ 7 ∷ 8 ∷ []))
    × IsPipe r
read-write_example =
    read-write 2 3 (7 ∷ 8 ∷ []) wrapped refl (omega arith) wrapped-IsPipe (omega arith)
      (omega arith) (omega arith)

killed_read_keeps_lock_example :
    (q : Pipe) × (pipe_read 2 wrapped.read_fd true 1 wrapped ≡ done (read_failed q))
    × (q.locked ≡ true)
    × ((r : ℕ) (vs : List ℕ) (res : ℕ) → pipe_write r vs res q ≡ panic)
    × ((r : ℕ) (b : Bool) (m : ℕ) → pipe_read r q.read_fd b m q ≡ panic)
killed_read_keeps_lock_example = killed_read_keeps_lock 2 1 wrapped refl (omega arith) (omega arith)
