-- ===== src/Kalloc/Tests.antt =====
-- A machine whose kernel ends three pages below the top of memory, and the instances of the theorems.
use cs537_sp2021_dis.Base.{ℕ, refl, true, false, [], ◌∷◌, arith, update}
use cs537_sp2021_dis.Kalloc.{kalloc}
use cs537_sp2021_dis.Kalloc.FreeList.{empty, page}
use cs537_sp2021_dis.Kalloc.Owners.{
  Owners, Owned, Reach, here, next, allocates, Gives, kalloc-Gives,
}
use cs537_sp2021_dis.Kalloc.Boot.{Boots, kinit-Boots}

abbrev first_page : ℕ
first_page = 2382356480

kinit-Boots_example : Boots 2382348289 (λ a. 0) 2382360576 2382364672
kinit-Boots_example =
    kinit-Boots 2382348289 (λ a. 0) 2382360576 2382364672 (omega arith) (omega arith) (omega arith)
      (omega arith)

-- One free page, which a call of `kalloc` takes.
abbrev one_page : Owners
one_page = record {
  kmem = record { use_lock = true; freelist = first_page; mem = λ a. 0 };
  used = λ v. false;
}

abbrev no_page : Owners
no_page = record {
  kmem = record { use_lock = true; freelist = 0; mem = λ a. 0 };
  used = update (λ v. false) first_page true;
}

one_page-Owned : Owned 2382356480 one_page (first_page ∷ [])
one_page-Owned = record {
  free =
      page (record { aligned = refl; above = omega arith; below = omega arith; word = omega arith })
        tt empty;
  unused = (refl, tt);
  valid = λ v h. cc;
}

taken : Reach 2382356480 one_page no_page
unfolding kalloc
taken = next here (allocates (λ e. cc) refl refl)

kalloc-Gives_example : Gives 2382356480 one_page (first_page ∷ []) no_page
kalloc-Gives_example = kalloc-Gives 2382356480 (first_page ∷ []) one_page-Owned taken
