-- ===== src/Fs/Pipe.antt =====
-- Pipes (src/fs/pipe.h, src/fs/pipe.c). One call of `write_from` or `read` is the work of pipe_write
-- or pipe_read between taking the pipe's spinlock and giving it up: the call returns, or it gives the
-- lock up to sleep on a semaphore. The code that a woken call then runs, without taking the lock again, is not
-- modelled.
-- The fields `rlock` and `wlock` count the posts to the two semaphores.
pub mod Inv
pub mod Refine
mod Tests
use fdu2024_os_honor_lab.Prelude.{
  ℕ, zero, suc, ◌+◌, ◌-◌, ◌%◌, ◌^◌, Bool, true, false, not, ◌&&◌, ◌||◌, List, [], ◌∷◌, ◌==◌,
  if◌then◌else◌, get_or, set, length,
}

-- PIPE_SIZE
abbrev pub pipe_size : ℕ
pipe_size = 512

abbrev pub u32_mod : ℕ
u32_mod = 2 ^ 32

-- `struct pipe`; a byte is a number.
pub record Pipe : Type 0 where
  pub buf : List ℕ
  pub nread : ℕ
  pub nwrite : ℕ
  pub readopen : Bool
  pub writeopen : Bool
  pub rlock : ℕ
  pub wlock : ℕ

-- How a call leaves the spinlock: with a result, with -1, or asleep after so many bytes.
pub data Outcome : Type 0 where
  returned : ℕ → Outcome
  failed : Outcome
  waits : ℕ → Outcome

pub init_pipe : List ℕ → Pipe
init_pipe garbage = record {
  buf = garbage;
  nread = 0;
  nwrite = 0;
  readopen = true;
  writeopen = true;
  rlock = 0;
  wlock = 0;
}

-- `pi->nwrite == pi->nread + PIPE_SIZE`, in 32 bits
pub is_full : Pipe → Bool
is_full p = p.nwrite == (p.nread + pipe_size) % u32_mod

pub is_empty : Pipe → Bool
is_empty p = p.nread == p.nwrite

-- `pi->data[pi->nwrite++ % PIPE_SIZE] = byte`
pub put : Pipe → ℕ → Pipe
put p byte = record p {
  buf = set p.buf (p.nwrite % pipe_size) byte;
  nwrite = (p.nwrite + 1) % u32_mod;
}

-- `pi->data[pi->nread++ % PIPE_SIZE]`
pub front : Pipe → ℕ
front p = get_or p.buf (p.nread % pipe_size) 0

pub advance : Pipe → Pipe
advance p = record p { nread = (p.nread + 1) % u32_mod }

-- The loop of pipe_write from byte `i` on; the list is what is left to write.
pub write_from : Bool → Pipe → List ℕ → ℕ → Outcome × Pipe
write_from killed p [] i = (returned i, record p { rlock = p.rlock + 1 })
write_from killed p (x ∷ xs) i =
    let rest = write_from killed (put p x) xs (i + 1) in
    if is_full p
    then (if not p.readopen || killed
        then (failed, p)
        else (waits i, record p { rlock = p.rlock + 1 }))
    else rest

pub write : Bool → Pipe → List ℕ → Outcome × Pipe
write killed p bytes = write_from killed p bytes 0

-- The copying loop of pipe_read, for at most `n` more bytes.
pub read_loop : Pipe → ℕ → List ℕ × Pipe
read_loop p zero = ([], p)
read_loop p (suc n) =
    let (xs, q) = read_loop (advance p) n in if is_empty p then ([], p) else (front p ∷ xs, q)

-- pipe_read: what it reads, how it ends, and the pipe.
pub read : Bool → Pipe → ℕ → List ℕ × Outcome × Pipe
read killed p n =
    if is_empty p && p.writeopen
    then (if killed then ([], failed, p) else ([], waits 0, p))
    else (let (xs, q) = read_loop p n in
        (xs, returned (length xs), record q { wlock = q.wlock + 1 }))

-- pipe_close, and whether it frees the pipe.
pub close : Pipe → Bool → Pipe × Bool
close p writable =
    let q =
      if writable
      then record p { writeopen = false; rlock = p.rlock + 1 }
      else record p { readopen = false; wlock = p.wlock + 1 } in
    (q, not q.readopen && not q.writeopen)
