-- ===== src/Riscv64/Mmu.antt =====
-- architecture/riscv64/MMU.hpp: page tables of three levels. A page table is its page number, which is its
-- address over 4096, and the memory of the tables is a function of a page number and an index. The
-- allocator of pages is a parameter.
pub mod Tree
pub mod Mapping
use depos.Base.{
  ◌&&◌, ℕ, zero, suc, ◌+◌, ◌-◌, ◌*◌, ◌/◌, ◌%◌, ◌^◌, ◌==◌, ltb, if◌then◌else◌, Bool, true, false,
  not, Option, none, some, bit_and, bit_or, update, ◌>>=◌,
}

-- `m_entries` of every page table
abbrev pub Tables : Type 0
Tables = ℕ → ℕ → ℕ

-- `V`, and `R | W | X`
abbrev pub valid_flag : ℕ
valid_flag = 1

abbrev pub leaf_flags : ℕ
leaf_flags = 14

-- `(va >> shift) & 0x1FF`
unfoldable pub vpn : ℕ → ℕ → ℕ
vpn shift va = bit_and (va / 2 ^ shift) 511

unfoldable pub entry : ℕ → ℕ → ℕ
entry addr flags = bit_or (addr / 4) flags

-- `set`
unfoldable pub set : ℕ → ℕ → ℕ → ℕ → Tables → Bool × Tables
set p i addr flags tables =
    if not (tables p i == 0)
    then (false, tables)
    else (true, update tables p (update (tables p) i (entry addr flags)))

-- `walk`
unfoldable pub walk : ℕ → ℕ → Tables → ℕ
walk p i tables = tables p i / 1024 % 2 ^ 52

-- The frame of an entry: `(pte >> 10) << 12`, of 64 bits.
unfoldable pub frame : ℕ → ℕ
frame pte = pte / 1024 * 4096 % 2 ^ 64

-- `virt2phys`, where the register has the value `satp`
unfoldable pub virt2phys : ℕ → ℕ → Tables → ℕ
virt2phys satp va tables =
    if satp == 0
    then va
    else (let root = bit_and satp 17592186044415 in
        let pte2 = tables root (vpn 30 va) in
        if bit_and pte2 valid_flag == 0
        then 0
        else (if not (bit_and pte2 leaf_flags == 0)
            then bit_or (frame pte2) (bit_and va 1073741823)
            else (let pte1 = tables (pte2 / 1024 % 2 ^ 52) (vpn 21 va) in
                if bit_and pte1 valid_flag == 0
                then 0
                else (if not (bit_and pte1 leaf_flags == 0)
                    then bit_or (frame pte1) (bit_and va 2097151)
                    else (let pte0 = tables (pte1 / 1024 % 2 ^ 52) (vpn 12 va) in
                        if bit_and pte0 valid_flag == 0
                        then 0
                        else bit_or (frame pte0) (bit_and va 4095))))))

-- `alloc s` is the page that the allocator hands out in the state `s`, or `none` for the null pointer, which
-- the source does not test for.
module _ {ℓ} {S : Type ℓ} (alloc : S → Option (ℕ × S)) where
  -- `PageTable::alloc`: a page of zeros
  unfoldable pub new_table : Tables → S → Option (ℕ × Tables × S)
  new_table tables s = alloc s >>= λ (p, s'). some (p, update tables p (λ i. 0), s')

  -- the table behind an entry, which is made where the entry is zero
  unfoldable pub descend : ℕ → ℕ → Tables → S → Option (ℕ × Tables × S)
  descend p i tables s =
      if tables p i == 0
      then (new_table tables s >>= λ (q, tables', s').
          some (q, (set p i (q * 4096) valid_flag tables').1, s'))
      else some (walk p i tables, tables, s)

  -- `map` of a page
  unfoldable pub map : ℕ → ℕ → ℕ → ℕ → Tables → S → Option (Bool × Tables × S)
  map root va pa flags tables s = descend root (vpn 30 va) tables s >>= λ (l1, tables1, s1).
      descend l1 (vpn 21 va) tables1 s1 >>= λ (l0, tables0, s0).
      let (done, tables') = set l0 (vpn 12 va) pa flags tables0 in some (done, tables', s0)

  -- the loop of `map` of a size, `pa` to `end`; the first number is fuel
  pub map_pages : ℕ → ℕ → ℕ → ℕ → ℕ → ℕ → Tables → S → Option (Tables × S)
  map_pages zero root va pa end flags tables s = none
  map_pages (suc k) root va pa end flags tables s =
      if ltb pa end
      then (map root va pa flags tables s >>= λ (done, tables', s').
          map_pages k root ((va + 4096) % 2 ^ 64) ((pa + 4096) % 2 ^ 64) end flags tables' s')
      else some (tables, s)

  -- `map` of a size: one entry for the size of a multiple of 2 ^ 30
  pub map_size : ℕ → ℕ → ℕ → ℕ → ℕ → ℕ → Tables → S → Option (Tables × S)
  map_size fuel root va pa size flags tables s =
      let giga = (size % 2 ^ 30 == 0) && ((va % 2 ^ 30 == 0) && (pa % 2 ^ 30 == 0)) in
      let pages = map_pages fuel root va pa ((pa + size) % 2 ^ 64) flags tables s in
      if giga then some ((set root (vpn 30 va) pa flags tables).1, s) else pages

-- what `load` writes to the register: `Mode | this >> 12`
unfoldable pub load : ℕ → ℕ
load root = bit_or (2 ^ 63) root
