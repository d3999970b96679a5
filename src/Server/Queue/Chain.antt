-- ===== src/Server/Queue/Chain.antt =====
-- What a queue on the heap stands for, and how one enqueue and one dequeue change it.
use wind_cloud_v.Base.{
  ℕ, ◌+◌, ◌-◌, ◌≡◌, ◌≢◌, refl, sym, Option, none, some, List, [], ◌∷◌, ◌++◌, length, length-append,
  ◌==◌, if◌then◌else◌, true, false, arith,
}
use wind_cloud_v.Server.Queue.{
  Ptr, null, Node, Heap, write, Queue, load, append_node, en_queue, de_queue,
}

-- Address and descriptor of each node, the next to leave first.
abbrev pub Cells : Type 0
Cells = List (Ptr × ℕ)

abbrev pub first : Cells → Ptr
first [] = null
first ((a, fd) ∷ xs) = a

abbrev pub last : Cells → Ptr
last [] = null
last ((a, fd) ∷ []) = a
last ((a, fd) ∷ (b, gd) ∷ xs) = last ((b, gd) ∷ xs)

abbrev pub NotIn : Ptr → Cells → Type 0
NotIn p [] = Unit
NotIn p ((a, fd) ∷ xs) = (p ≢ a) × NotIn p xs

-- The nodes lie on the heap, at different addresses, each with a pointer to the next.
abbrev pub Chain : Heap → Cells → Type 0
Chain h [] = Unit
Chain h ((a, fd) ∷ xs) =
    (a ≢ null) × (h a ≡ some (record { fd = fd; next = first xs })) × NotIn a xs × Chain h xs

pub record IsQueue (h : Heap) (q : Queue) (xs : Cells) : Type 0 where
  pub head : q.head ≡ first xs
  pub end : q.end ≡ last xs
  pub size : q.size ≡ length xs
  pub chain : Chain h xs

-- A write at an address outside changes no chain.
Chain-write :
    (h : Heap) (p : Ptr) (n : Option Node) (xs : Cells)
    → NotIn p xs
    → Chain h xs
    → Chain (write h p n) xs
Chain-write h p n [] o c = tt
Chain-write h p n ((a, fd) ∷ xs) o c = (c.0, ground arith, c.2, Chain-write h p n xs o.1 c.3)

NotIn-of_none : (h : Heap) (p : Ptr) (xs : Cells) → Chain h xs → h p ≡ none → NotIn p xs
NotIn-of_none h p [] c e = tt
NotIn-of_none h p ((a, fd) ∷ xs) c e = (λ (q : p ≡ a). ground arith, NotIn-of_none h p xs c.3 e)

NotIn-snoc : (p a : Ptr) (fd : ℕ) (xs : Cells) → NotIn p xs → p ≢ a → NotIn p (xs ++ (a, fd) ∷ [])
NotIn-snoc p a fd [] o n = (n, tt)
NotIn-snoc p a fd ((b, gd) ∷ xs) o n = (o.0, NotIn-snoc p a fd xs o.1 n)

last-snoc : (a : Ptr) (fd : ℕ) (xs : Cells) → last (xs ++ (a, fd) ∷ []) ≡ a
last-snoc a fd [] = refl
last-snoc a fd ((b, gd) ∷ []) = refl
last-snoc a fd ((b, gd) ∷ (c, hd) ∷ xs) = last-snoc a fd ((c, hd) ∷ xs)

NotIn-last :
    (p : Ptr) (b : Ptr) (gd : ℕ) (xs : Cells) → NotIn p ((b, gd) ∷ xs) → p ≢ last ((b, gd) ∷ xs)
NotIn-last p b gd [] o = o.0
NotIn-last p b gd ((c, hd) ∷ xs) o = NotIn-last p c hd xs o.1

-- The last node of a chain that is not empty, and the chain once it points to a new node.
record Linked (h : Heap) (p : Ptr) (fd : ℕ) (xs : Cells) : Type 0 where
  node : Node
  found : load h (last xs) ≡ some node
  chain : Chain (write h (last xs) (some (record node { next = p }))) (xs ++ (p, fd) ∷ [])

link :
    (h : Heap) (p : Ptr) (fd : ℕ) (a : Ptr) (ad : ℕ) (xs : Cells)
    → p ≢ null
    → h p ≡ some (record { fd = fd; next = null })
    → NotIn p ((a, ad) ∷ xs)
    → Chain h ((a, ad) ∷ xs)
    → Linked h p fd ((a, ad) ∷ xs)
link h p fd a ad [] ne new o c = record {
  node = record { fd = ad; next = null };
  found = ground arith;
  chain = ground arith;
}
link h p fd a ad ((b, bd) ∷ xs) ne new o c =
    let ih = link h p fd b bd xs ne new o.1 c.3 in
    record {
      node = ih.node;
      found = ih.found;
      chain = (
        c.0,
        ground (arith, NotIn-last a b bd xs c.2),
        NotIn-snoc a p fd ((b, bd) ∷ xs) c.2 (λ e. o.0 (sym e)),
        ih.chain,
      );
    }

-- What an enqueue leaves: the new cell at the end, and nothing written but it and the last node.
pub record Enqueued (h : Heap) (xs : Cells) (p : Ptr) (fd : ℕ) (r : Heap × Queue) : Type 0 where
  pub queue : IsQueue r.0 r.1 (xs ++ (p, fd) ∷ [])
  pub same : (a : Ptr) → NotIn a xs → a ≢ p → r.0 a ≡ h a

module _ (h : Heap) (p : Ptr) (fd : ℕ) (ne : p ≢ null) (free : h p ≡ none) where
  abbrev fresh : Heap
  fresh = write h p (some (record { fd = fd; next = null }))

  en_queue-nil :
      (q : Queue)
      → IsQueue h q []
      → (r : Heap × Queue) × (en_queue p h q fd ≡ some r) × Enqueued h [] p fd r
  unfolding en_queue
  en_queue-nil q is =
      let ok : (p == null) ≡ false = ground arith in
      let idle : (q.size == 0) ≡ true = ground (arith, is.size) in
      (
        (fresh, record { head = p; end = p; size = q.size + 1 }),
        rw (ok, idle),
        record {
          queue = record {
            head = refl;
            end = refl;
            size = omega (arith, is.size);
            chain = (ne, ground arith, tt, tt);
          };
          same = λ a o n. ground arith;
        },
      )

  module _ (a : Ptr) (ad : ℕ) (xs : Cells) where
    abbrev all : Cells
    all = (a, ad) ∷ xs

    en_queue-cons :
        (q : Queue)
        → IsQueue h q all
        → Linked fresh p fd all
        → (r : Heap × Queue) × (en_queue p h q fd ≡ some r) × Enqueued h all p fd r
    unfolding en_queue append_node
    en_queue-cons q is l =
        let ok : (p == null) ≡ false = ground arith in
        let busy : (q.size == 0) ≡ false = ground (arith, is.size) in
        let at : load fresh q.end ≡ some l.node = rw is.end l.found in
        (
          (
            write fresh (last all) (some (record (l.node) { next = p })),
            record { head = q.head; end = p; size = q.size + 1 },
          ),
          rw (ok, busy, at, append_node)
              (λ i. some (
                write fresh (is.end i) (some (record (l.node) { next = p })),
                record { head = q.head; end = p; size = q.size + 1 },
              )),
          record {
            queue = record {
              head = is.head;
              end = sym (last-snoc p fd all);
              size = omega (arith, is.size, length-append all ((p, fd) ∷ []));
              chain = l.chain;
            };
            same = λ b out n. ground (arith, NotIn-last b a ad xs out);
          },
        )

  -- `enQueue` with a fresh node never faults, puts the descriptor behind all others, and writes to
  -- no other memory.
  pub en_queue-Enqueued :
      (q : Queue) (xs : Cells)
      → IsQueue h q xs
      → (r : Heap × Queue) × (en_queue p h q fd ≡ some r) × Enqueued h xs p fd r
  en_queue-Enqueued q [] is = en_queue-nil q is
  en_queue-Enqueued q ((a, ad) ∷ xs) is =
      let o = NotIn-of_none h p ((a, ad) ∷ xs) is.chain free in
      en_queue-cons a ad xs q is
        (link fresh p fd a ad xs ne (ground arith) o (Chain-write h p _ ((a, ad) ∷ xs) o is.chain))

-- Where `calloc` fails, `enQueue` writes through NULL.
pub en_queue-null : (h : Heap) (q : Queue) (fd : ℕ) → en_queue null h q fd ≡ none
unfolding en_queue
en_queue-null h q fd = refl

-- What a dequeue leaves: the other cells, and the node of the first one freed.
pub record Dequeued (h : Heap) (p : Ptr) (xs : Cells) (h' : Heap) (q' : Queue) : Type 0 where
  pub queue : IsQueue h' q' xs
  pub freed : h' p ≡ none
  pub same : (a : Ptr) → a ≢ p → h' a ≡ h a

new_end :
    (h : Heap) (q : Queue) (p : Ptr) (fd : ℕ) (xs : Cells)
    → IsQueue h q ((p, fd) ∷ xs)
    → (if q.size == 1 then null else q.end) ≡ last xs
new_end h q p fd [] is = ground (arith, is.size)
new_end h q p fd ((b, bd) ∷ xs) is =
    let more : (q.size == 1) ≡ false = ground (arith, is.size) in rw more is.end

-- `deQueue` on a queue that is not empty never faults: it returns the oldest descriptor, frees its
-- node and keeps the others in order.
pub de_queue-Dequeued :
    (h : Heap) (q : Queue) (p : Ptr) (fd : ℕ) (xs : Cells)
    → IsQueue h q ((p, fd) ∷ xs)
    → (h' : Heap) × (q' : Queue) × (de_queue h q ≡ some (some fd, h', q')) × Dequeued h p xs h' q'
unfolding de_queue
de_queue-Dequeued h q p fd xs is =
    let busy : (q.size == 0) ≡ false = ground (arith, is.size) in
    let at : load h q.head ≡ some (record { fd = fd; next = first xs }) =
      ground (arith, is.head, is.chain) in
    (
      write h p none,
      record { head = first xs; end = last xs; size = q.size - 1 },
      rw (busy, at)
          (λ i. some (
            some fd,
            write h (is.head i) none,
            record { head = first xs; end = new_end h q p fd xs is i; size = q.size - 1 },
          )),
      record {
        queue = record {
          head = refl;
          end = refl;
          size = omega (arith, is.size);
          chain = Chain-write h p none xs is.chain.2 is.chain.3;
        };
        freed = ground arith;
        same = λ a n. ground arith;
      },
    )

pub de_queue-empty : (h : Heap) (q : Queue) → IsQueue h q [] → de_queue h q ≡ some (none, h, q)
unfolding de_queue
de_queue-empty h q is = rw is.size
