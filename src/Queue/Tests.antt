-- ===== src/Queue/Tests.antt =====
-- A queue of two on a small heap: tests of kernel/lib/kqueue.c's model, and the theorems applied.
use sgos.Prelude.{ℕ, ◌≡◌, refl, true, none, some, [], ◌∷◌, ◌==◌, if◌then◌else◌, arith}
use sgos.Prelude.Int.{pos}
use sgos.Prelude.Run.{ok}
use sgos.Dll.{node, Heap}
use sgos.Dll.Links.{Cells}
use sgos.Queue.{Queue, remove_element, destroy}
use sgos.Queue.Shape.{IsQueue}
use sgos.Queue.Destroy.{Destroyed, erased_after, destroy-Destroyed}
use sgos.Queue.Search.{remove_element-append}

abbrev two_nodes : Heap ℕ
two_nodes p = if p == 8 then some (node 0 70 9) else if p == 9 then some (node 8 71 0) else none

abbrev two : Queue
two = record {
  front = 9;
  back = 8;
  cur_num = pos 2;
  max_num = pos 3;
  use_sem = true;
  semaphore = 1;
  has_del = true;
  erased = [];
  cells = two_nodes;
}

abbrev two_list : Cells ℕ
two_list = (8, 70) ∷ (9, 71) ∷ []

two-IsQueue : IsQueue 0 two two_list
two-IsQueue = record {
  linked = record { links = ground arith; back_first = refl; front_last = refl };
  count = refl;
  unlocked = ground arith;
}

abbrev empty : Queue
empty = record two { front = 0; back = 0; cur_num = pos 0; cells = λ p. none }

empty-IsQueue : IsQueue 0 empty []
empty-IsQueue = record {
  linked = record { links = tt; back_first = refl; front_last = refl };
  count = refl;
  unlocked = ground arith;
}

-- After two pops of the empty queue its count is -2, and 0 with two entries.
abbrev drifted : Queue
drifted = record two { cur_num = pos 0 }

drifted-IsQueue : IsQueue 2 drifted two_list
drifted-IsQueue = record {
  linked = record { links = ground arith; back_first = refl; front_last = refl };
  count = refl;
  unlocked = ground arith;
}

abbrev full : Queue
full = record two { max_num = pos 2 }

full-IsQueue : IsQueue 0 full two_list
full-IsQueue = record {
  linked = record { links = ground arith; back_first = refl; front_last = refl };
  count = refl;
  unlocked = ground arith;
}

remove_element-append_example :
    (s : Queue) × (remove_element 8 two ≡ ok tt s) × IsQueue 0 s ((9, 71) ∷ []) × (s.cells 8 ≡ none)
remove_element-append_example = remove_element-append 0 two [] 8 70 ((9, 71) ∷ []) two-IsQueue

destroy-Destroyed_example : (s : Queue) × (destroy 3 two ≡ ok tt s) × Destroyed s (71 ∷ 70 ∷ [])
unfolding erased_after
destroy-Destroyed_example = destroy-Destroyed 3 0 two two_list two-IsQueue (omega arith) refl
