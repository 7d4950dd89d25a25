-- ===== src/Paging/Building.antt =====
-- The memory after a mapping through a new table (ArMapOnePage of kernel/arch/i386/mmu/map.c).
use sgos.Prelude.{
  ℕ, ◌+◌, ◌*◌, ◌/◌, ◌%◌, ◌<◌, ◌≡◌, ◌≢◌, refl, ◌∙◌, not, ◌&&◌, some, arith, ◌==◌, if◌then◌else◌, leb,
}
use sgos.Frames.{get_page}
use sgos.Paging.{
  Paging, set_word, frame, directory_slot, table_slot, set_present, set_writable, set_user,
  find_page, new_entry, new_table, fill_table, write_new, map_page,
}
use sgos.Paging.Translate.{IsPage, find_page_at, find_page_same}

-- The directory entry for a new table in the page at `v`.
abbrev pub entry_of : ℕ → ℕ
entry_of v = set_present 1 (set_writable 1 (set_user 1 v))

pub entry_of_lem : (v : ℕ) → v % 4096 ≡ 0 → (frame (entry_of v) ≡ v / 4096) × (entry_of v ≢ 0)
unfolding set_present set_writable set_user
entry_of_lem v a = (omega arith, omega arith)

-- The memory after the mapping, with the new directory entry `de` and the table entry `e`.
abbrev pub built : (ℕ → ℕ → ℕ) → ℕ → ℕ → ℕ → ℕ → ℕ → ℕ → ℕ
built m dir virt de e =
    let page = frame de in
    let m1 = set_word m dir (directory_slot virt) de in
    set_word
      (λ q j. if (q == page) && leb (table_slot virt) j && not (leb 1024 j) then 0 else m1 q j) page
      (table_slot virt) e

new_table_run :
    (dir virt v : ℕ) (s : Paging)
    → (get_page s.frames).0 ≡ v
    → v ≢ 0
    → new_table dir virt s ≡ record s {
      frames = (get_page s.frames).1;
      memory = set_word s.memory dir (directory_slot virt) (entry_of v);
    }
unfolding new_table
new_table_run dir virt v s e nz = ground arith

set_word_self : (m : ℕ → ℕ → ℕ) (p k v : ℕ) → set_word m p k v p k ≡ v
set_word_self m p k v = ground arith

cleared_self :
    (m : ℕ → ℕ → ℕ) (p k : ℕ)
    → k < 1024
    → (if (p == p) && leb k k && not (leb 1024 k) then 0 else m p k) ≡ 0
cleared_self m p k h = ground arith

fill_table_run :
    (de virt phys attr : ℕ) (s : Paging)
    → fill_table de virt phys attr 6 s ≡ record s {
      memory =
          set_word
            (λ q j.
              if (q == frame de) && leb (table_slot virt) j && not (leb 1024 j)
              then 0
              else s.memory q j)
            (frame de)
            (table_slot virt)
            (new_entry phys attr 6 0);
      overrun = s.overrun + table_slot virt;
    }
unfolding fill_table
fill_table_run de virt phys attr s =
    rw (cleared_self s.memory (frame de) (table_slot virt) (omega arith))

write_new_run :
    (dir virt phys attr v de : ℕ) (s t : Paging)
    → (get_page s.frames).0 ≡ v
    → v ≢ 0
    → new_table dir virt s ≡ t
    → t.memory dir (directory_slot virt) ≡ de
    → write_new dir virt phys attr 6 s ≡ fill_table de virt phys attr 6 t
unfolding write_new
write_new_run dir virt phys attr v de s t e nz n d = ground arith

map_page_absent :
    (dir virt phys attr : ℕ) (s : Paging)
    → s.memory dir (directory_slot virt) ≡ 0
    → map_page dir virt phys attr 6 s ≡ write_new dir virt phys attr 6 s
unfolding map_page
map_page_absent dir virt phys attr s z = ground arith

module _ (m : ℕ → ℕ → ℕ) (dir virt de e : ℕ) (nz : de ≢ 0) (apart : frame de ≢ dir)
    (p : IsPage virt) where
  abbrev m' : ℕ → ℕ → ℕ
  m' = built m dir virt de e

  pub built_dir : (i : ℕ) → m' dir i ≡ (if i == directory_slot virt then de else m dir i)
  built_dir i = ground arith

  built_at :
      (other : ℕ) → directory_slot other ≡ directory_slot virt → m' dir (directory_slot other) ≡ de
  built_at other d = ground arith

  pub built_here : find_page m' dir virt ≡ some (frame e * 4096, e % 8)
  built_here = find_page_at m' dir virt de e (built_at virt refl) nz (ground arith)

  -- A later entry of the new table is clear, an earlier one is what the page held.
  pub built_above :
      (other : ℕ)
      → directory_slot other ≡ directory_slot virt
      → table_slot virt < table_slot other
      → find_page m' dir other ≡ some (0, 0)
  built_above other d lt = find_page_at m' dir other de 0 (built_at other d) nz (ground arith)

  pub built_below :
      (other : ℕ)
      → directory_slot other ≡ directory_slot virt
      → table_slot other < table_slot virt
      → find_page m' dir other
        ≡ some (frame (m (frame de) (table_slot other)) * 4096, m (frame de) (table_slot other) % 8)
  built_below other d lt =
      find_page_at m' dir other de (m (frame de) (table_slot other)) (built_at other d) nz
        (ground arith)

  pub built_elsewhere :
      (other : ℕ)
      → m dir (directory_slot virt) ≡ 0
      → m dir (directory_slot other) ≢ 0
      → frame (m dir (directory_slot other)) ≢ frame de
      → frame (m dir (directory_slot other)) ≢ dir
      → find_page m' dir other ≡ find_page m dir other
  built_elsewhere other z nz' ne nd =
      find_page_same m m' dir other (ground arith) (λ w. ground arith)

pub map_page_new :
    (dir virt phys attr v : ℕ) (s : Paging)
    → s.memory dir (directory_slot virt) ≡ 0
    → (get_page s.frames).0 ≡ v
    → v ≢ 0
    → map_page dir virt phys attr 6 s ≡ record {
      frames = (get_page s.frames).1;
      memory = built s.memory dir virt (entry_of v) (new_entry phys attr 6 0);
      overrun = s.overrun + table_slot virt;
    }
map_page_new dir virt phys attr v s z e nz =
    let n = new_table_run dir virt v s e nz in
    let w = set_word_self s.memory dir (directory_slot virt) (entry_of v) in
    let t : Paging = record s {
      frames = (get_page s.frames).1;
      memory = set_word s.memory dir (directory_slot virt) (entry_of v);
    } in
    map_page_absent dir virt phys attr s z
    ∙ write_new_run dir virt phys attr v (entry_of v) s t e nz n w
    ∙ fill_table_run (entry_of v) virt phys attr t
