-- ===== src/Paging/Boot/Directory.antt =====
-- The directories that kernel/arch/i386/mmu/page.c makes are well-formed.
use sgos.Prelude.{
  ℕ, zero, suc, ◌+◌, ◌*◌, ◌/◌, ◌%◌, ◌^◌, ◌≤◌, ◌<◌, ◌≡◌, ◌≢◌, refl, sym, ap, subst, ◌∙◌, inl, inr,
  ◌&&◌, arith, ◌==◌, if◌then◌else◌, ltb, leb, Bool-cases,
}
use sgos.Frames.{initialize, get_page, set_ref, index}
use sgos.Frames.Next.{get_page_next}
use sgos.Frames.Scan.{get_page-Taken, get_page-IsFrames}
use sgos.Paging.{Paging, frame, set_present, set_writable, set_user}
use sgos.Paging.Translate.{Held, Held-ne, Taken-Held, IsDirectory}
use sgos.Paging.Boot.{
  kernel_directory, first_table, boot_table, boot_tables, initialize_paging, initialize_directory,
}

-- The pages that the first `k` rounds have taken, on a machine of `n` pages.
record Booted (n k : ℕ) (s : Paging) : Type 0 where
  front : s.frames.page_front ≡ 1024
  used : s.frames.page_used ≡ 1024
  total : s.frames.total_pages ≡ n
  begin : s.frames.page_it ≡ 1024 + k
  refs : (j : ℕ) → s.frames.page_ref j ≡ (if leb 1024 j && ltb j (1024 + k) then 1 else 0)
  first : s.memory kernel_directory 768 ≡ first_table
  rows : (j : ℕ) → 769 ≤ j → j < 769 + k → s.memory kernel_directory j ≡ (j + 255) * 4096 + 7

-- The word of a new entry.
entry_word : (i : ℕ) → set_writable 1 (set_user 1 (set_present 1 (i * 4096))) ≡ i * 4096 + 7
unfolding set_present set_writable set_user
entry_word i = omega arith

next_run :
    (n k : ℕ) (s : Paging)
    → Booted n k s
    → k < 255
    → 1279 ≤ n
    → n ≤ 2 ^ 20
    → get_page s.frames ≡ (
      (1024 + k) * 4096,
      record s.frames { page_ref = set_ref s.frames.page_ref (1024 + k) 1; page_it = 1024 + k + 1 },
    )
next_run n k s b lt lo hi =
    let f = s.frames in
    let w : (1024 + k) * 4096 % 2 ^ 32 ≡ (1024 + k) * 4096 = omega arith in
    get_page_next f (omega (arith, b.used, b.total)) (omega (arith, b.front, b.begin))
      (omega (arith, b.total, b.begin)) (ground (arith, b.begin, b.refs f.page_it))
    ∙ ap (λ i. (i * 4096 % 2 ^ 32, record f { page_ref = set_ref f.page_ref i 1; page_it = i + 1 }))
        b.begin
    ∙ ap (λ v. (v, record f { page_ref = set_ref f.page_ref (1024 + k) 1; page_it = 1024 + k + 1 }))
        w

boot_table-Booted :
    (n k : ℕ) (s : Paging)
    → Booted n k s
    → k < 255
    → 1279 ≤ n
    → n ≤ 2 ^ 20
    → Booted n (suc k) (boot_table (769 + k) s)
unfolding boot_table
boot_table-Booted n k s b lt lo hi = rw (next_run n k s b lt lo hi) (record {
  front = b.front;
  used = b.used;
  total = b.total;
  begin = omega arith;
  refs = λ j. ground (arith, b.refs j);
  first = ground (arith, b.first);
  rows = λ j l h. ground (arith, b.rows j, entry_word (1024 + k));
})

boot_tables-Booted :
    (n m k : ℕ) (s : Paging)
    → Booted n k s
    → m + k ≤ 255
    → 1279 ≤ n
    → n ≤ 2 ^ 20
    → Booted n (m + k) (boot_tables m (769 + k) s)
unfolding boot_tables
boot_tables-Booted n zero k s b lt lo hi =
    let e : zero + k ≡ k = omega arith in subst (λ c. Booted n c s) (sym e) b
boot_tables-Booted n (suc m) k s b lt lo hi =
    let i : 769 + k + 1 ≡ 769 + suc k = omega arith in
    let j : m + suc k ≡ suc m + k = omega arith in
    let t = boot_table (769 + k) s in
    subst (λ c. Booted n c (boot_tables m (769 + k + 1) t)) j
      (subst (λ c. Booted n (m + suc k) (boot_tables m c t)) (sym i)
        (boot_tables-Booted n m (suc k) t (boot_table-Booted n k s b (omega arith) lo hi)
          (omega arith) lo hi))

-- The machine before the first round.
abbrev started : (mem : ℕ) (memory : ℕ → ℕ → ℕ) → Paging
started mem memory = record { frames = initialize mem; memory = memory; overrun = 0 }

started-Booted :
    (mem : ℕ) (memory : ℕ → ℕ → ℕ)
    → memory kernel_directory 768 ≡ first_table
    → Booted (mem / 4096) 0 (started mem memory)
unfolding initialize
started-Booted mem memory e = record {
  front = refl;
  used = refl;
  total = refl;
  begin = refl;
  refs = λ j. ground arith;
  first = e;
  rows = λ j l h. absurd (omega arith);
}

abbrev cleared : Paging → Paging
cleared t = record t {
  memory = λ q j. if (q == kernel_directory) && ltb j 768 then 0 else t.memory q j;
}

-- The entries of the kernel's directory, and the pages of their tables.
entry_lem :
    (n : ℕ) (t : Paging) (j : ℕ)
    → Booted n 255 t
    → j < 1024
    → (cleared t).memory kernel_directory j ≢ 0
    → (768 ≤ j)
      × (frame ((cleared t).memory kernel_directory j) ≡ (if j == 768 then 0x301 else j + 255))
entry_lem n t j b lt nz = ground (arith, b.rows j, b.first)

slots_differ :
    (i j x y : ℕ)
    → 768 ≤ i
    → 768 ≤ j
    → x ≡ (if i == 768 then 0x301 else i + 255)
    → y ≡ (if j == 768 then 0x301 else j + 255)
    → x ≡ y
    → i ≡ j
slots_differ i j x y l l' e e' k = ground arith

table_held :
    (n i x : ℕ) (t : Paging)
    → Booted n 255 t
    → 768 ≤ i
    → i < 1024
    → x ≡ (if i == 768 then 0x301 else i + 255)
    → Held t.frames x
table_held n i x t b lo h e = elim (Bool-cases (i == 768)) [
  | inl z ↦ inr (ground (arith, b.front))
  | inr z ↦ inl (ground (arith, b.refs x))
]

cleared-IsDirectory :
    (n : ℕ) (t : Paging)
    → Booted n 255 t
    → 1279 ≤ n
    → n ≤ 2 ^ 20
    → IsDirectory kernel_directory (cleared t)
cleared-IsDirectory n t b lo hi = record {
  frames = record {
    front_pos = omega (arith, b.front);
    total = omega (arith, b.total);
    ordered = omega (arith, b.front, b.total);
    begin = omega (arith, b.begin, b.total);
  };
  dir_taken = inr (omega (arith, b.front));
  taken = λ i h nz. let e = entry_lem n t i b h nz in table_held n i _ t b e.0 h e.1;
  apart = λ i h nz. let e = entry_lem n t i b h nz in λ k. absurd (ground (arith, e.1, k));
  distinct = λ i j h h' nz nz' same.
      let e = entry_lem n t i b h nz in
      let e' = entry_lem n t j b h' nz' in slots_differ i j _ _ e.0 e'.0 e.1 e'.1 same;
}

-- On a machine whose memory holds the tables, ArInitializePaging leaves a well-formed directory for
-- the kernel.
pub initialize_paging-IsDirectory :
    (mem : ℕ) (memory : ℕ → ℕ → ℕ)
    → 1279 * 4096 ≤ mem
    → mem < 2 ^ 32
    → memory kernel_directory 768 ≡ first_table
    → IsDirectory kernel_directory (initialize_paging mem memory)
unfolding initialize_paging
initialize_paging-IsDirectory mem memory lo hi e =
    cleared-IsDirectory (mem / 4096) (boot_tables 255 769 (started mem memory))
      (boot_tables-Booted (mem / 4096) 255 0 (started mem memory) (started-Booted mem memory e)
        (omega arith) (omega arith) (omega arith))
      (omega arith) (omega arith)

-- An entry of the new directory that is not 0 is that of the kernel's.
new_row :
    (s : Paging) (dir i : ℕ)
    → i < 1024
    → (initialize_directory dir s).memory dir i ≢ 0
    → ((initialize_directory dir s).memory dir i ≡ s.memory kernel_directory i)
      × (s.memory kernel_directory i ≢ 0)
unfolding initialize_directory
new_row s dir i b n = ground arith

-- A page taken for the directory of a new space: ArInitializePageDirectory makes a well-formed
-- directory of it, with the kernel's tables.
pub initialize_directory-IsDirectory :
    (s : Paging)
    → IsDirectory kernel_directory s
    → (get_page s.frames).0 ≢ 0
    → IsDirectory (index (get_page s.frames).0) (
        initialize_directory
          (index (get_page s.frames).0)
          (record s { frames = (get_page s.frames).1 }))
unfolding initialize_directory
initialize_directory-IsDirectory s is nz =
    let f = (get_page s.frames).1 in
    let took = get_page-Taken s.frames is.frames nz in
    let new = index (get_page s.frames).0 in
    record {
      frames = get_page-IsFrames s.frames is.frames;
      dir_taken = inl (ground (arith, took.refs new));
      taken = λ i b n.
          let (r, m) = new_row s new i b n in
          subst (λ w. Held f (frame w)) (sym r) (Taken-Held s.frames f new _ took (is.taken i b m));
      apart = λ i b n.
          let (r, m) = new_row s new i b n in
          subst (λ w. frame w ≢ new) (sym r) (Held-ne s.frames f new _ took (is.taken i b m));
      distinct = λ i j b c n o e.
          let (r, m) = new_row s new i b n in
          let (r', m') = new_row s new j c o in
          is.distinct i j b c m m' (ap frame (sym r) ∙ e ∙ ap frame r');
    }
