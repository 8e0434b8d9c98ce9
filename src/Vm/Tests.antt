-- ===== src/Vm/Tests.antt =====
-- An empty directory and two free pages, and the instances of the theorems.
use cs537_sp2021_dis.Base.{ℕ, ◌+◌, ◌≡◌, ◌<◌, ◌%◌, refl, true, [], ◌∷◌, arith, if◌then◌else◌, ◌==◌}
use cs537_sp2021_dis.Bytes.{bit}
use cs537_sp2021_dis.Kalloc.{Kmem, kalloc}
use cs537_sp2021_dis.Kalloc.FreeList.{IsPage, empty, page}
use cs537_sp2021_dis.Vm.{
  Mapped, mapped, failed, remap, out_of_fuel, mappages, map_pages, walkpgdir, uva2ka, address,
}
use cs537_sp2021_dis.Vm.Tables.{IsPgdir}
use cs537_sp2021_dis.Vm.Maps.{Maps}
use cs537_sp2021_dis.Vm.Loop.{mappages-Maps}
use cs537_sp2021_dis.Vm.User.{mappages-uva2ka}

abbrev kernel_end : ℕ
kernel_end = 2148532224

abbrev directory : ℕ
directory = 2149580800

abbrev first_page : ℕ
first_page = 2149584896

abbrev second_page : ℕ
second_page = 2149588992

abbrev start : Kmem
start = record {
  use_lock = true;
  freelist = first_page;
  mem = λ a. if a == first_page then second_page else 0;
}

IsPage-of_4096 : (p : ℕ) → p % 4096 ≡ 0 → kernel_end < p + 1 → p < 2200000000 → IsPage kernel_end p
IsPage-of_4096 p al lo hi = record {
  aligned = al;
  above = omega (arith, lo);
  below = omega (arith, lo, hi);
  word = omega (arith, hi);
}

start-IsPgdir :
    IsPgdir kernel_end start.mem start.freelist directory (first_page ∷ second_page ∷ [])
start-IsPgdir = record {
  free =
      page (IsPage-of_4096 first_page refl (omega arith) (omega arith))
        ((λ e. omega (arith, e)), tt)
        (page (IsPage-of_4096 second_page refl (omega arith) (omega arith)) tt empty);
  dir = IsPage-of_4096 directory refl (omega arith) (omega arith);
  dir_used = ((λ e. omega (arith, e)), ((λ e. omega (arith, e)), tt));
  table = λ i li there. absurd (ground (arith, li, there));
  apart = λ i j li lj ne there there2. absurd (ground (arith, li, there));
}

-- Two pages from the address 4096, for the user.
mappages-Maps_example :
    Maps kernel_end directory 6 start 4096 2 3145728 (mappages start directory 4096 8192 3145728 6)
mappages-Maps_example =
    mappages-Maps kernel_end start directory 4096 8192 3145728 6 (first_page ∷ second_page ∷ [])
      start-IsPgdir (omega arith) (omega arith) (omega arith)

state_of : Mapped → Kmem
state_of (mapped k) = k
state_of (failed k) = k
state_of remap = start
state_of out_of_fuel = start

abbrev after : Kmem
after = state_of (mappages start directory 4096 8192 3145728 6)

both_mapped : mappages start directory 4096 8192 3145728 6 ≡ mapped after
unfolding mappages map_pages walkpgdir kalloc state_of
both_mapped = refl

mappages-uva2ka_example : uva2ka after directory 8200 ≡ address 2150633472
unfolding bit
mappages-uva2ka_example =
    mappages-uva2ka kernel_end start after directory 4096 8192 3145728 6
      (first_page ∷ second_page ∷ []) 8200 start-IsPgdir (omega arith) (omega arith) (omega arith)
      refl (omega arith) refl both_mapped (omega arith) (omega arith)
