-- ===== src/Paging/Entries.antt =====
-- The fields of a page table entry.
use sgos.Prelude.{ℕ, ◌/◌, ◌%◌, ◌^◌, ◌<◌, ◌≡◌, arith}
use sgos.Paging.{frame, attribute, address_part, attribute_part, new_entry}

pub attribute_lem : (d : ℕ) → attribute d ≡ d % 8
unfolding attribute
attribute_lem d = ground arith

pub attribute_part_lem :
    (attr te : ℕ)
    → (attribute_part attr te % 8 ≡ attr % 8) × (frame (attribute_part attr te) ≡ frame te)
unfolding attribute_part
attribute_part_lem attr te = (omega arith, omega arith)

pub address_part_lem :
    (phys attr te : ℕ) → phys < 2 ^ 32 → frame (address_part phys attr te) ≡ phys / 4096
unfolding address_part
address_part_lem phys attr te small = ground arith

-- With both flags the entry holds the address and the attribute.
pub new_entry_lem :
    (phys attr te : ℕ)
    → phys < 2 ^ 32
    → (new_entry phys attr 6 te % 8 ≡ attr % 8) × (frame (new_entry phys attr 6 te) ≡ phys / 4096)
unfolding new_entry
new_entry_lem phys attr te small = omega (
  arith,
  attribute_part_lem attr (address_part phys attr te),
  address_part_lem phys attr te small,
)

-- With the attribute only the entry keeps its address.
pub new_entry_attribute :
    (phys attr te : ℕ)
    → (new_entry phys attr 4 te % 8 ≡ attr % 8) × (frame (new_entry phys attr 4 te) ≡ frame te)
unfolding new_entry
new_entry_attribute phys attr te = attribute_part_lem attr te
