-- ===== src/Dll.antt =====
-- Doubly linked nodes at addresses. The kernel's queues, virtual memory lists and scheduler chains
-- (kernel/lib/kqueue.c, kernel/mm/virtual.c, kernel/tm/sched.c) all have this shape.
pub mod Links
pub mod Splice
pub mod Heads
use sgos.Prelude.{ℕ, Option, none, some, ◌==◌, if◌then◌else◌}

abbrev pub Ptr : Type 0
Ptr = ℕ

abbrev pub null : Ptr
null = 0

pub record Node (V : Type 0) : Type 0 where
  pub prev : Ptr
  pub next : Ptr
  pub v : V

abbrev pub Heap : Type 0 → Type 0
Heap V = Ptr → Option (Node V)

module _ {V : Type 0} where
  abbrev pub node : Ptr → V → Ptr → Node V
  node b v a = record { prev = b; next = a; v = v }

  -- The raw write: `some n` fills the address, `none` gives it back to the allocator.
  abbrev pub write : Heap V → Ptr → Option (Node V) → Heap V
  write h p c a = if a == p then c else h a

  -- `*p`: nothing at NULL and at an address that holds no node.
  abbrev pub load : Heap V → Ptr → Option (Node V)
  load h p = if p == null then none else h p

  -- `p->prev = q` and `p->next = q`.
  unfoldable pub set_prev : Ptr → Ptr → Heap V → Option (Heap V)
  set_prev p q h = elim (load h p) [
    | none ↦ none
    | some n ↦ some (write h p (some (record n { prev = q })))
  ]

  unfoldable pub set_next : Ptr → Ptr → Heap V → Option (Heap V)
  set_next p q h = elim (load h p) [
    | none ↦ none
    | some n ↦ some (write h p (some (record n { next = q })))
  ]

  -- The guarded writes of the list code: `if (p) p->next = q` and `if (p) p->prev = q`.
  abbrev pub link_next : Ptr → Ptr → Heap V → Option (Heap V)
  link_next p q h = if p == null then some h else set_next p q h

  abbrev pub link_prev : Ptr → Ptr → Heap V → Option (Heap V)
  link_prev p q h = if p == null then some h else set_prev p q h
