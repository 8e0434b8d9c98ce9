-- ===== src/Vm/Tables.antt =====
-- The page tables of one directory: different pages, none of them free.
use cs537_sp2021_dis.Base.{
  ℕ, ◌+◌, ◌*◌, ◌<◌, ◌≡◌, ◌≢◌, refl, true, false, if◌then◌else◌, List, All, arith,
}
use cs537_sp2021_dis.Kalloc.{pgsize}
use cs537_sp2021_dis.Kalloc.FreeList.{IsPage, IsFree}
use cs537_sp2021_dis.Vm.{pte_addr, present, p2v, table_entry}

-- The table of the `i`th entry of the directory `d`.
abbrev pub table_at : (ℕ → ℕ) → ℕ → ℕ → ℕ
table_at mem d i = p2v (pte_addr (mem (d + i * 4)))

-- The `j`th entry of the `i`th table, 0 where there is no table.
abbrev pub entry_at : (ℕ → ℕ) → ℕ → ℕ → ℕ → ℕ
entry_at mem d i j = if present (mem (d + i * 4)) then mem (table_at mem d i + j * 4) else 0

pub record IsTable (kernel_end d t : ℕ) (pages : List ℕ) : Type 0 where
  pub page : IsPage kernel_end t
  pub other : t ≢ d
  pub used : All (λ q. t ≢ q) pages

pub record IsPgdir (kernel_end : ℕ) (mem : ℕ → ℕ) (freelist d : ℕ) (pages : List ℕ) : Type 0 where
  pub free : IsFree kernel_end mem freelist pages
  pub dir : IsPage kernel_end d
  pub dir_used : All (λ q. d ≢ q) pages
  pub table :
      (i : ℕ)
      → i < 1024
      → present (mem (d + i * 4)) ≡ true
      → IsTable kernel_end d (table_at mem d i) pages
  pub apart :
      (i j : ℕ)
      → i < 1024
      → j < 1024
      → i ≢ j
      → present (mem (d + i * 4)) ≡ true
      → present (mem (d + j * 4)) ≡ true
      → table_at mem d i ≢ table_at mem d j

pub entry_at-absent :
    (mem : ℕ → ℕ) (d i j : ℕ) → present (mem (d + i * 4)) ≡ false → entry_at mem d i j ≡ 0
entry_at-absent mem d i j h = rw h refl

pub entry_at-present :
    (mem : ℕ → ℕ) (d i j : ℕ)
    → present (mem (d + i * 4)) ≡ true
    → entry_at mem d i j ≡ mem (table_at mem d i + j * 4)
entry_at-present mem d i j h = rw h refl

module _ (kernel_end : ℕ) where
  -- A word of one page is no word of another.
  pub words_apart :
      {p q : ℕ} (o r : ℕ)
      → IsPage kernel_end p
      → IsPage kernel_end q
      → p ≢ q
      → o < pgsize
      → r < pgsize
      → p + o ≢ q + r
  words_apart o r hp hq ne lo lr e = omega (arith, hp.aligned, hq.aligned, ne, lo, lr, e)

  -- The new entry of the directory names the new table.
  pub table_entry-p2v : {p : ℕ} → IsPage kernel_end p → p2v (pte_addr (table_entry p)) ≡ p
  table_entry-p2v h = omega (arith, h.aligned, h.below, h.word)

  pub table_entry-present : {p : ℕ} → IsPage kernel_end p → present (table_entry p) ≡ true
  table_entry-present h = ground arith
