-- ===== src/Pipe.antt =====
-- xv6/pipe.c. The ring `data` is a function of the index, `nread` and `nwrite` are uints that wrap at
-- 2 ^ 32. Each call runs under `p->lock` up to its end or to its next `sleep`: a call that goes to
-- sleep returns what it has still to do, and is called again with that after a wakeup. `wakes` lists
-- the channels that it passed to `wakeup`, in order.
pub mod Ring
pub mod Fifo
pub mod Traffic
mod Tests
use cs537_sp2021_dis.Base.{
  ℕ, zero, suc, ◌+◌, ◌-◌, ◌%◌, ◌^◌, Bool, true, false, not, ◌&&◌, ◌||◌, List, [], ◌∷◌, ◌++◌, ltb,
  ◌==◌, if◌then◌else◌, update,
}

abbrev pub pipe_size : ℕ
pipe_size = 512

abbrev pub u32 : ℕ → ℕ
u32 n = n % 2 ^ 32

pub record Pipe : Type 0 where
  pub ring : ℕ → ℕ
  pub nread : ℕ
  pub nwrite : ℕ
  pub readopen : Bool
  pub writeopen : Bool

-- `&p->nread`, on which readers sleep, and `&p->nwrite`, on which writers do.
pub data Chan : Type 0 where
  readers writers : Chan

-- The initial values that `pipealloc` sets; the page from `kalloc` is not cleared.
pub opened : (ℕ → ℕ) → Pipe
opened junk = record { ring = junk; nread = 0; nwrite = 0; readopen = true; writeopen = true }

-- The new pipe, the channel that is woken, and whether the page goes back to `kfree`.
pub pipeclose : Pipe → Bool → Pipe × Chan × Bool
pipeclose p writable =
    let p' : Pipe =
      if writable then record p { writeopen = false } else record p { readopen = false } in
    (p', if writable then readers else writers, not (p'.readopen || p'.writeopen))

-- `p->nwrite == p->nread + PIPESIZE`
pub is_full : Pipe → Bool
is_full p = p.nwrite == u32 (p.nread + pipe_size)

pub is_empty : Pipe → Bool
is_empty p = p.nread == p.nwrite

-- `p->data[p->nwrite++ % PIPESIZE] = c`
pub put : Pipe → ℕ → Pipe
put p c = record p { ring = update p.ring (p.nwrite % pipe_size) c; nwrite = u32 (p.nwrite + 1) }

pub data Written : Type 0 where
  -- all bytes are in the ring: the call returns `n`
  wrote : Pipe → Written
  -- nobody can read, or the process is killed: the call returns -1, and these bytes are not stored
  broken : Pipe → List ℕ → Written
  -- asleep on `writers`, having woken the readers; these bytes are left
  waits : Pipe → List ℕ → Written

pub pipewrite : Bool → Pipe → List ℕ → Written
pipewrite killed p [] = wrote p
pipewrite killed p (c ∷ cs) =
    let rest = pipewrite killed (put p c) cs in
    if is_full p
    then (if not p.readopen || killed then broken p (c ∷ cs) else waits p (c ∷ cs))
    else rest

-- The channels that a run of `pipewrite` wakes.
pub write_wakes : Written → List Chan
write_wakes (wrote p) = readers ∷ []
write_wakes (broken p cs) = []
write_wakes (waits p cs) = readers ∷ []

-- `p->data[p->nread++ % PIPESIZE]`, up to `n` times while the pipe is not empty: the bytes copied.
pub read_bytes : Pipe → ℕ → List ℕ × Pipe
read_bytes p zero = ([], p)
read_bytes p (suc n) =
    let rest = read_bytes (record p { nread = u32 (p.nread + 1) }) n in
    if is_empty p then ([], p) else (p.ring (p.nread % pipe_size) ∷ rest.0, rest.1)

pub data Got : Type 0 where
  -- these bytes were copied, and the writers woken: the call returns their number
  got : List ℕ → Pipe → Got
  -- the process is killed: the call returns -1
  killed_read : Got
  -- asleep on `readers`
  waits_read : Got

pub piperead : Bool → Pipe → ℕ → Got
piperead killed p n =
    if is_empty p && p.writeopen
    then (if killed then killed_read else waits_read)
    else (let (bytes, p') = read_bytes p n in got bytes p')

pub read_wakes : Got → List Chan
read_wakes (got bytes p) = writers ∷ []
read_wakes killed_read = []
read_wakes waits_read = []
