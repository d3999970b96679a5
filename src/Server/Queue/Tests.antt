-- ===== src/Server/Queue/Tests.antt =====
-- A queue of three nodes on a heap.
use wind_cloud_v.Base.{refl, none, some, [], ◌∷◌, arith}
use wind_cloud_v.Server.Queue.{null, Heap, Queue, append_node, en_queue, de_queue, write}
use wind_cloud_v.Server.Queue.Chain.{Cells, IsQueue}
use wind_cloud_v.Server.Queue.Fifo.{put, take, Replays, run-replay}

-- Descriptors 5 and 6 wait, at the addresses 16 and 8.
abbrev heap : Heap
heap =
    write (write (λ p. none) 8 (some (record { fd = 6; next = null }))) 16
      (some (record { fd = 5; next = 8 }))

abbrev queue : Queue
queue = record { head = 16; end = 8; size = 2 }

abbrev cells : Cells
cells = (16, 5) ∷ (8, 6) ∷ []

two : IsQueue heap queue cells
two = record {
  head = refl;
  end = refl;
  size = refl;
  chain = (λ e. omega arith, refl, (λ e. omega arith, tt), (λ e. omega arith, refl, tt, tt));
}

run-replay_example :
    Replays (put 24 7 ∷ take ∷ take ∷ put 16 9 ∷ take ∷ take ∷ take ∷ []) heap queue (5 ∷ 6 ∷ [])
unfolding en_queue append_node de_queue
run-replay_example =
    run-replay (put 24 7 ∷ take ∷ take ∷ put 16 9 ∷ take ∷ take ∷ take ∷ []) heap queue cells two
      (λ e. omega arith, refl, (λ e. omega arith, refl, tt))
