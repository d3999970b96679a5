-- ===== src/Server/Queue/Fifo.antt =====
-- Sequences of `enQueue` and `deQueue` against a list.
use wind_cloud_v.Base.{ℕ, ◌≡◌, ◌≢◌, refl, ap, ◌∙◌, Option, none, some, List, [], ◌∷◌, ◌++◌}
use wind_cloud_v.Server.Queue.{Ptr, null, Heap, Queue, en_queue, de_queue}
use wind_cloud_v.Server.Queue.Chain.{
  Cells, IsQueue, en_queue-Enqueued, de_queue-Dequeued, de_queue-empty,
}

-- What callers do to a queue; `put` has the address that `calloc` answers with.
pub data Op : Type 0 where
  put : Ptr → ℕ → Op
  take : Op

abbrev pub Outcomes : Type 0
Outcomes = List (Option ℕ)

-- The results of the dequeues, and the last state; `none` is a fault.
unfoldable pub run : List Op → Heap → Queue → Option (Outcomes × Heap × Queue)
run [] h q = some ([], h, q)
run (put p fd ∷ ops) h q = elim (en_queue p h q fd) [ none ↦ none | some (h', q') ↦ run ops h' q' ]
run (take ∷ ops) h q = elim (de_queue h q) [
  | none ↦ none
  | some (r, h', q') ↦ elim (run ops h' q') [
    | none ↦ none
    | some (rs, h'', q'') ↦ some (r ∷ rs, h'', q'')
  ]
]

-- While there is memory, `calloc` answers with an address that is not NULL and holds no node.
abbrev pub Granted : List Op → Heap → Queue → Type 0
Granted [] h q = Unit
Granted (put p fd ∷ ops) h q =
    (p ≢ null)
    × (h p ≡ none)
    × (elim (en_queue p h q fd) [ none ↦ Unit | some (h', q') ↦ Granted ops h' q' ])
Granted (take ∷ ops) h q = elim (de_queue h q) [
  | none ↦ Unit
  | some (r, h', q') ↦ Granted ops h' q'
]

-- The same on a list of descriptors: the results, and what is left.
unfoldable pub replay : List Op → List ℕ → Outcomes × List ℕ
replay [] fds = ([], fds)
replay (put p fd ∷ ops) fds = replay ops (fds ++ fd ∷ [])
replay (take ∷ ops) [] = let (rs, left) = replay ops [] in (none ∷ rs, left)
replay (take ∷ ops) (fd ∷ fds) = let (rs, left) = replay ops fds in (some fd ∷ rs, left)

abbrev pub fds : Cells → List ℕ
fds [] = []
fds ((p, fd) ∷ xs) = fd ∷ fds xs

fds-snoc : (xs : Cells) (p : Ptr) (fd : ℕ) → fds (xs ++ (p, fd) ∷ []) ≡ fds xs ++ fd ∷ []
fds-snoc [] p fd = refl
fds-snoc ((a, ad) ∷ xs) p fd = ap (◌∷◌ ad) (fds-snoc xs p fd)

-- A run that goes through, with the results and the contents that the list predicts.
pub record Replays (ops : List Op) (h : Heap) (q : Queue) (ds : List ℕ) : Type 0 where
  pub heap : Heap
  pub queue : Queue
  pub cells : Cells
  pub result : run ops h q ≡ some ((replay ops ds).0, heap, queue)
  pub is_queue : IsQueue heap queue cells
  pub contents : fds cells ≡ (replay ops ds).1

-- While `calloc` has memory, no sequence of operations faults, each dequeue returns the oldest descriptor that is left, or -1
-- when there is none, and the queue holds the rest in order.
pub run-replay :
    (ops : List Op) (h : Heap) (q : Queue) (xs : Cells)
    → IsQueue h q xs
    → Granted ops h q
    → Replays ops h q (fds xs)
unfolding run replay
run-replay [] h q xs is g = record {
  heap = h;
  queue = q;
  cells = xs;
  result = refl;
  is_queue = is;
  contents = refl;
}
run-replay (put p fd ∷ ops) h q xs is g =
    let (r, done, e) = en_queue-Enqueued h p fd g.0 g.1 q xs is in
    let rest = run-replay ops r.0 r.1 (xs ++ (p, fd) ∷ []) e.queue (rw done at g.2) in
    let same = fds-snoc xs p fd in
    record {
      heap = rest.heap;
      queue = rest.queue;
      cells = rest.cells;
      result =
          rw (done, run)
            (rest.result ∙ ap (λ ds. some ((replay ops ds).0, rest.heap, rest.queue)) same);
      is_queue = rest.is_queue;
      contents = rest.contents ∙ ap (λ ds. (replay ops ds).1) same;
    }
run-replay (take ∷ ops) h q [] is g =
    let rest = run-replay ops h q [] is (rw (de_queue-empty h q is, Granted) at g) in
    record {
      heap = rest.heap;
      queue = rest.queue;
      cells = rest.cells;
      result = rw (de_queue-empty h q is, run, rest.result);
      is_queue = rest.is_queue;
      contents = rest.contents;
    }
run-replay (take ∷ ops) h q ((p, fd) ∷ xs) is g =
    let (h', q', done, d) = de_queue-Dequeued h q p fd xs is in
    let rest = run-replay ops h' q' xs d.queue (rw (done, Granted) at g) in
    record {
      heap = rest.heap;
      queue = rest.queue;
      cells = rest.cells;
      result = rw (done, run, rest.result);
      is_queue = rest.is_queue;
      contents = rest.contents;
    }
