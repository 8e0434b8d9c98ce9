-- ===== src/Kalloc.antt =====
-- xv6/kalloc.c: the page allocator. Memory is a function from the address of a word to the word, and
-- `r->next` is the first word of the page `r`. `kernel_end` is the address `end` of kernel.ld. The
-- lock is not part of the state: each call is one critical section.
pub mod FreeList
pub mod Owners
pub mod Range
pub mod Boot
mod Tests
use cs537_sp2021_dis.Base.{
  ℕ, zero, suc, ◌+◌, ◌-◌, ◌*◌, ◌/◌, ◌%◌, ◌^◌, Bool, true, false, not, ◌&&◌, ◌||◌, Option, none,
  some, ltb, leb, ◌==◌, if◌then◌else◌, update,
}

-- xv6/mmu.h and xv6/memlayout.h
abbrev pub pgsize : ℕ
pgsize = 4096

abbrev pub phystop : ℕ
phystop = 234881024

abbrev pub kernbase : ℕ
kernbase = 2147483648

-- `V2P(v)`, for an address `v` below 2 ^ 32
abbrev pub v2p : ℕ → ℕ
v2p v = (v + (2 ^ 32 - kernbase)) % 2 ^ 32

-- The word of bytes 1 with which `memset(v, 1, PGSIZE)` fills the page.
abbrev pub junk : ℕ
junk = 16843009

abbrev pub fill_page : (ℕ → ℕ) → ℕ → ℕ → ℕ
fill_page mem v a = if leb v a && ltb a (v + pgsize) then junk else mem a

pub record Kmem : Type 0 where
  pub use_lock : Bool
  pub freelist : ℕ
  pub mem : ℕ → ℕ

pub kfree : ℕ → Kmem → ℕ → Option Kmem
kfree kernel_end k v =
    if not (v % pgsize == 0) || ltb v kernel_end || leb phystop (v2p v)
    then none
    else some (record k { mem = update (fill_page k.mem v) v k.freelist; freelist = v })

-- The new state and the page, 0 for none.
unfoldable pub kalloc : Kmem → Kmem × ℕ
kalloc k = let r = k.freelist in (if r == 0 then k else record k { freelist = k.mem r }, r)

-- `PGROUNDUP(a)`, for an address below the last page
abbrev pub pgroundup : ℕ → ℕ
pgroundup a = (a + (pgsize - 1)) / pgsize * pgsize

-- The loop of `freerange` from `p`, for at most `fuel` pages.
pub free_pages : ℕ → ℕ → Kmem → ℕ → ℕ → Option Kmem
free_pages kernel_end zero k p vend = some k
free_pages kernel_end (suc fuel) k p vend =
    if ltb vend (p + pgsize) then some k else elim (kfree kernel_end k p) [
      | none ↦ none
      | some k' ↦ free_pages kernel_end fuel k' (p + pgsize) vend
    ]

-- There are at most `vend / PGSIZE` pages below `vend`.
pub freerange : ℕ → Kmem → ℕ → ℕ → Option Kmem
freerange kernel_end k vstart vend = free_pages kernel_end (vend / pgsize) k (pgroundup vstart) vend

pub kinit1 : ℕ → Kmem → ℕ → ℕ → Option Kmem
kinit1 kernel_end k vstart vend = freerange kernel_end (record k { use_lock = false }) vstart vend

pub kinit2 : ℕ → Kmem → ℕ → ℕ → Option Kmem
kinit2 kernel_end k vstart vend = elim (freerange kernel_end k vstart vend) [
  | none ↦ none
  | some k' ↦ some (record k' { use_lock = true })
]
