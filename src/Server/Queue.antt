-- ===== src/Server/Queue.antt =====
-- The queue of waiting clients: include/queue.h and src/server/queue.c, on an explicit heap.
pub mod Chain
pub mod Fifo
pub mod Tests
use wind_cloud_v.Base.{ℕ, ◌+◌, ◌-◌, ◌≡◌, Option, none, some, List, [], ◌∷◌, ◌==◌, if◌then◌else◌}

-- An address; 0 is NULL. A file descriptor is not negative: the result -1 is `none`.
abbrev pub Ptr : Type 0
Ptr = ℕ

abbrev pub null : Ptr
null = 0

-- `node_t`.
pub record Node : Type 0 where
  pub fd : ℕ
  pub next : Ptr

-- The nodes that are allocated.
abbrev pub Heap : Type 0
Heap = Ptr → Option Node

abbrev pub write : Heap → Ptr → Option Node → Heap
write h p n q = if p == q then n else h q

-- `queue_t`. `size` counts open sockets, so it stays far below the limit of an `int`.
pub record Queue : Type 0 where
  pub head : Ptr
  pub end : Ptr
  pub size : ℕ

-- `memset(&pool->queue, 0, …)`.
abbrev pub empty : Queue
empty = record { head = null; end = null; size = 0 }

-- A read through NULL or a dangling pointer is a fault, `none`.
abbrev pub load : Heap → Ptr → Option Node
load h p = if p == null then none else h p

-- The node is linked behind the last one; `h` holds the new node at `fresh` already.
unfoldable pub append_node : Ptr → Heap → Queue → Option (Heap × Queue)
append_node fresh h q = elim (load h q.end) [
  | none ↦ none
  | some n ↦ some (
    write h q.end (some (record n { next = fresh })),
    record { head = q.head; end = fresh; size = q.size + 1 },
  )
]

-- `enQueue`. `fresh` is what `calloc` returns, and the result is not checked: the first write is
-- through it.
unfoldable pub en_queue : Ptr → Heap → Queue → ℕ → Option (Heap × Queue)
en_queue fresh h q fd =
    let h' = write h fresh (some (record { fd = fd; next = null })) in
    if fresh == null
    then none
    else if q.size == 0
    then some (h', record { head = fresh; end = fresh; size = q.size + 1 })
    else append_node fresh h' q

-- `deQueue`.
unfoldable pub de_queue : Heap → Queue → Option (Option ℕ × Heap × Queue)
de_queue h q = if q.size == 0 then some (none, h, q) else elim (load h q.head) [
  | none ↦ none
  | some n ↦ some (
    some n.fd,
    write h q.head none,
    record { head = n.next; end = if q.size == 1 then null else q.end; size = q.size - 1 },
  )
]
