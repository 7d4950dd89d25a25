-- ===== src/Paging/Boot.antt =====
-- kernel/arch/i386/mmu/page.c: the kernel's page directory at the start (ArInitializePaging) and the
-- directory of a new space (ArInitializePageDirectory). The kernel's directory is page 768, at
-- 0x00300000; multiboot.S has put the table of the first 4 MB into its entry 768.
pub mod Directory
use sgos.Prelude.{ℕ, zero, suc, ◌+◌, ◌*◌, ◌/◌, not, ◌&&◌, ◌==◌, if◌then◌else◌, ltb, leb}
use sgos.Frames.{initialize, get_page}
use sgos.Paging.{Paging, set_word, set_present, set_writable, set_user}

-- KernelPageDirectory.PhysicalAddress, and the entry that multiboot.S has made.
abbrev pub kernel_directory : ℕ
kernel_directory = 768

abbrev pub first_table : ℕ
first_table = 0x00301000 + 3

-- One round of the loop of ArInitializePaging: a page for the table of entry `i`, cleared.
boot_table : ℕ → Paging → Paging
boot_table i s =
    let r = get_page s.frames in
    let page = r.0 / 4096 in
    let m = set_word s.memory kernel_directory i r.0 in
    let m' : ℕ → ℕ → ℕ = λ q j. if (q == page) && not (leb 1024 j) then 0 else m q j in
    record s {
      frames = r.1;
      memory =
          set_word m' kernel_directory i
            (set_writable 1 (set_user 1 (set_present 1 (m' kernel_directory i))));
    }

boot_tables : ℕ → ℕ → Paging → Paging
boot_tables zero i s = s
boot_tables (suc k) i s = boot_tables k (i + 1) (boot_table i s)

-- ArInitializePaging, where `mem_size` is not 0. The entries below 768 are cleared at the end.
pub initialize_paging : ℕ → (ℕ → ℕ → ℕ) → Paging
initialize_paging mem_size memory =
    let s : Paging = record { frames = initialize mem_size; memory = memory; overrun = 0 } in
    let t = boot_tables 255 769 s in
    record t { memory = λ q j. if (q == kernel_directory) && ltb j 768 then 0 else t.memory q j }

-- ArInitializePageDirectory, for the directory in the page `dir`.
pub initialize_directory : ℕ → Paging → Paging
initialize_directory dir s = record s {
  memory = λ q j.
      if (q == dir) && ltb j 1024
      then if ltb j 768 then 0 else s.memory kernel_directory j
      else s.memory q j;
}
