-- ===== src/Memory/User.antt =====
-- The amount of user memory in kernel/mm/usermemory.c.
use sgos.Prelude.{ℕ, ◌%◌, ◌^◌, ◌<◌, ◌≡◌, true, arith}
use sgos.Prelude.Run.{ok}
use sgos.Dll.{Ptr, Node}
use sgos.Virtual.{Vma, add32, sub32}
use sgos.Memory.{Memory, ltb_int, allocate_user_memory_address}

restored :
    (s : Memory) (siz : ℕ)
    → s.user_allocated < 2 ^ 32
    → siz < 2 ^ 32
    → sub32 (add32 s.user_allocated siz) siz ≡ s.user_allocated
restored s siz a b = omega arith

-- MmAllocateUserMemoryAddress of more than the capacity leaves returns NULL and changes nothing.
pub allocate_user_memory_address_refuses :
    (fuel : ℕ) (buf : Ptr) (stale : Node Vma) (addr siz attr flag : ℕ) (s : Memory)
    → addr % 4096 ≡ 0
    → siz % 4096 ≡ 0
    → siz < 2 ^ 32
    → s.user_allocated < 2 ^ 32
    → ltb_int s.user_capacity (add32 s.user_allocated siz) ≡ true
    → allocate_user_memory_address fuel buf stale addr siz attr flag s ≡ ok 0 s
unfolding allocate_user_memory_address
allocate_user_memory_address_refuses fuel buf stale addr siz attr flag s a b small lt over =
    ground (arith, restored s siz)
