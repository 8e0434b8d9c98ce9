-- ===== src/Pipe/Tests.antt =====
-- A pipe whose counters are about to wrap: 510 bytes in the ring, room for two.
use cs537_sp2021_dis.Base.{◌-◌, ◌^◌, ◌≡◌, refl, arith, true, false, List, [], ◌∷◌, ◌++◌}
use cs537_sp2021_dis.Pipe.{Pipe, opened, pipeclose, pipewrite, piperead, waits, is_full, put}
use cs537_sp2021_dis.Pipe.Ring.{IsRing, contents}
use cs537_sp2021_dis.Pipe.Fifo.{WriteResult, pipewrite-WriteResult, ReadResult, piperead-ReadResult}
use cs537_sp2021_dis.Pipe.Traffic.{Traffic, Call, writes, reads, closes, run, pipe_fifo}

abbrev wrapping : Pipe
wrapping = record {
  ring = λ i. i;
  nread = 2 ^ 32 - 509;
  nwrite = 1;
  readopen = true;
  writeopen = true;
}

wrapping-IsRing : IsRing wrapping
wrapping-IsRing = omega arith

write_run : pipewrite false wrapping (7 ∷ 8 ∷ 9 ∷ []) ≡ waits (put (put wrapping 7) 8) (9 ∷ [])
unfolding pipewrite is_full put
write_run = refl

pipewrite-WriteResult_example :
    WriteResult false wrapping (7 ∷ 8 ∷ 9 ∷ []) (pipewrite false wrapping (7 ∷ 8 ∷ 9 ∷ []))
pipewrite-WriteResult_example =
    pipewrite-WriteResult false wrapping (7 ∷ 8 ∷ 9 ∷ []) wrapping-IsRing

piperead-ReadResult_example : ReadResult false wrapping 2 (piperead false wrapping 2)
piperead-ReadResult_example = piperead-ReadResult false wrapping 2 wrapping-IsRing

abbrev calls : List Call
calls = writes false (1 ∷ 2 ∷ 3 ∷ []) ∷ reads false 2 ∷ closes true ∷ reads false 5 ∷ []

abbrev history : Traffic
history = run (record { pipe = opened (λ i. i); freed = false; stored = []; received = [] }) calls

pipe_fifo_example : history.stored ≡ history.received ++ contents history.pipe
pipe_fifo_example = pipe_fifo (λ i. i) calls

-- The second close frees the page: the history ends, and the read after it is not a call.
freed_history :
    run
      (record { pipe = opened (λ i. i); freed = false; stored = []; received = [] })
      (writes false (1 ∷ []) ∷ closes true ∷ closes false ∷ reads false 1 ∷ [])
    ≡ record {
      pipe = (pipeclose (pipeclose (put (opened (λ i. i)) 1) true).0 false).0;
      freed = true;
      stored = 1 ∷ [];
      received = [];
    }
unfolding run opened pipewrite pipeclose is_full put piperead
freed_history = refl
