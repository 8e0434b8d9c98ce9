-- ===== src/Files/Tests.antt =====
-- The empty table, one file opened in it, and the instances of the theorems.
use cs537_sp2021_dis.Base.{◌≡◌, refl, false, [], ◌∷◌, arith, update, find_first}
use cs537_sp2021_dis.Files.{fd_none, fd_inode, File, begins, iputs, ends, filealloc, teardown}
use cs537_sp2021_dis.Files.Counts.{
  Holders, Reach, here, next, allocs, Fresh, filealloc-Fresh, ClosesLast, fileclose-ClosesLast,
}

abbrev no_file : File
no_file = record {
  type = fd_none;
  ref = 0;
  readable = false;
  writable = false;
  pipe = 0;
  ip = 0;
  off = 0;
}

abbrev no_files : Holders
no_files = record { table = λ f. no_file; held = λ f. 0 }

abbrev one_file : Holders
one_file = record {
  table = update (λ f. no_file) 0 (record no_file { ref = 1 });
  held = update (λ f. 0) 0 1;
}

one_opened : Reach no_files one_file
unfolding filealloc find_first
one_opened = next here (allocs 0 refl refl)

filealloc-Fresh_example : Fresh one_file (filealloc one_file.table)
filealloc-Fresh_example = filealloc-Fresh (λ f. refl) one_opened

-- A file on the inode 7, open once.
abbrev inode_file : Holders
inode_file = record {
  table = update (λ f. no_file) 0 (record no_file { ref = 1; type = fd_inode; ip = 7 });
  held = update (λ f. 0) 0 1;
}

fileclose-ClosesLast_example : ClosesLast inode_file 0
fileclose-ClosesLast_example =
    fileclose-ClosesLast {start = inode_file} {s = inode_file} 0 (λ f. ground arith) here
      (omega arith)

-- The last close of a file on an inode puts the inode in a transaction.
puts_inode :
    teardown fd_inode (record no_file { ref = 1; ip = 7; type = fd_inode })
    ≡ begins ∷ iputs 7 ∷ ends ∷ []
unfolding teardown
puts_inode = refl
