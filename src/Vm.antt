-- ===== src/Vm.antt =====
-- xv6/vm.c: page tables. A page table is a page of the memory of Kalloc, its entries are words; the
-- address of an entry is 0 for a null pointer.
pub mod Tables
pub mod Grow
pub mod Write
pub mod Walk
pub mod Maps
pub mod Store
pub mod Loop
pub mod Flags
pub mod User
mod Tests
use cs537_sp2021_dis.Base.{
  ℕ, zero, suc, ◌+◌, ◌-◌, ◌*◌, ◌/◌, ◌%◌, ◌^◌, Bool, true, false, not, ◌&&◌, ◌||◌, ltb, leb, ◌==◌,
  if◌then◌else◌, update,
}
use cs537_sp2021_dis.Bytes.{bit}
use cs537_sp2021_dis.Kalloc.{pgsize, kernbase, v2p, Kmem, kalloc}

-- `a | b`, for numbers of so many bits
pub bit_or : ℕ → ℕ → ℕ → ℕ
bit_or zero a b = 0
bit_or (suc n) a b = (if a % 2 == 1 || b % 2 == 1 then 1 else 0) + 2 * bit_or n (a / 2) (b / 2)

-- xv6/mmu.h: `PDX(va)`, `PTX(va)`, `PTE_ADDR(pte)`, `PGROUNDDOWN(a)`, and the test of `PTE_P`
abbrev pub pdx : ℕ → ℕ
pdx va = va / 4194304 % 1024

abbrev pub ptx : ℕ → ℕ
ptx va = va / 4096 % 1024

abbrev pub pte_addr : ℕ → ℕ
pte_addr pte = pte / 4096 * 4096

abbrev pub pgrounddown : ℕ → ℕ
pgrounddown a = a / pgsize * pgsize

abbrev pub present : ℕ → Bool
present pte = pte % 2 == 1

-- `P2V(a)`
abbrev pub p2v : ℕ → ℕ
p2v a = (a + kernbase) % 2 ^ 32

-- `memset(v, 0, PGSIZE)`
abbrev pub zero_page : (ℕ → ℕ) → ℕ → ℕ → ℕ
zero_page mem v a = if leb v a && ltb a (v + pgsize) then 0 else mem a

-- `V2P(pgtab) | PTE_P | PTE_W | PTE_U`: the lowest three bits are set.
abbrev pub table_entry : ℕ → ℕ
table_entry pgtab = v2p pgtab / 8 * 8 + 7

-- The new state, and the address of the entry.
pub walkpgdir : Kmem → ℕ → ℕ → Bool → Kmem × ℕ
walkpgdir k pgdir va alloc =
    let pde = pgdir + pdx va * 4 in
    let k1 = (kalloc k).0 in
    let pgtab = (kalloc k).1 in
    if present (k.mem pde)
    then (k, p2v (pte_addr (k.mem pde)) + ptx va * 4)
    else if not alloc
    then (k, 0)
    else if pgtab == 0
    then (k1, 0)
    else (
      record k1 { mem = update (zero_page k1.mem pgtab) pde (table_entry pgtab) },
      pgtab + ptx va * 4,
    )

pub data Mapped : Type 0 where
  -- the results 0 and -1
  mapped failed : Kmem → Mapped
  -- panic("remap")
  remap : Mapped
  out_of_fuel : Mapped

-- The loop of `mappages`, with so many rounds.
pub map_pages : ℕ → Kmem → ℕ → ℕ → ℕ → ℕ → ℕ → Mapped
map_pages zero k pgdir a end pa perm = out_of_fuel
map_pages (suc fuel) k pgdir a end pa perm =
    let (k1, pte) = walkpgdir k pgdir a true in
    let k2 = record k1 { mem = update k1.mem pte (bit_or 32 (bit_or 32 pa perm) 1) } in
    let more = map_pages fuel k2 pgdir ((a + pgsize) % 2 ^ 32) end ((pa + pgsize) % 2 ^ 32) perm in
    if pte == 0
    then failed k1
    else if present (k1.mem pte)
    then remap
    else if a == end
    then mapped k2
    else more

-- There are 2 ^ 20 pages.
pub mappages : Kmem → ℕ → ℕ → ℕ → ℕ → ℕ → Mapped
mappages k pgdir va size pa perm =
    map_pages (2 ^ 20) k pgdir (pgrounddown va) (pgrounddown ((va + size + (2 ^ 32 - 1)) % 2 ^ 32))
      pa perm

-- The kernel's address of a user's address, 0 for none; `fault` for the read through a null pointer.
pub data Translated : Type 0 where
  address : ℕ → Translated
  fault : Translated

pub uva2ka : Kmem → ℕ → ℕ → Translated
uva2ka k pgdir uva =
    let pte = (walkpgdir k pgdir uva false).1 in
    if pte == 0
    then fault
    else if not (present (k.mem pte))
    then address 0
    else if not (bit 2 (k.mem pte))
    then address 0
    else address (p2v (pte_addr (k.mem pte)))
