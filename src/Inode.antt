-- ===== src/Inode.antt =====
-- xv6/fs.c: the blocks of an inode and its contents. `addrs` and the other fields are those of the
-- in-memory `struct inode`; a block of an inode is allocated when it is first used.
pub mod Slots
pub mod Direct
pub mod Indirect
pub mod Bmap
pub mod Free
pub mod Clean
pub mod Dinode
pub mod Truncate
use cs537_sp2021_dis.Base.{
  ℕ, zero, suc, ◌+◌, ◌-◌, ◌*◌, ◌/◌, ◌%◌, ◌^◌, Bool, true, false, not, ◌&&◌, ◌||◌, Option, none,
  some, List, [], ◌∷◌, ◌++◌, ltb, leb, ◌==◌, if◌then◌else◌, update, for_upto,
}
use cs537_sp2021_dis.Bytes.{get_half, put_half, get_word, put_word}
use cs537_sp2021_dis.Fs.{Fs, bsize, write_logged, Result, returns, panics, bind, balloc, bfree}

-- xv6/fs.h
abbrev pub ndirect : ℕ
ndirect = 12

abbrev pub nindirect : ℕ
nindirect = 128

abbrev pub maxfile : ℕ
maxfile = 140

abbrev pub t_dev : ℕ
t_dev = 3

-- The fields of `struct inode` that the inode lock protects, and its number. Each of the numbers
-- `type`, `major`, `minor` and `nlink` is its 16 bits.
pub record Inode : Type 0 where
  pub inum : ℕ
  pub type : ℕ
  pub major : ℕ
  pub minor : ℕ
  pub nlink : ℕ
  pub size : ℕ
  pub addrs : ℕ → ℕ

-- `addr = ip->addrs[i]`, a new block if there is none.
pub direct : Fs → Inode → ℕ → Result (ℕ × Inode)
direct s ip i =
    if ip.addrs i == 0
    then (bind (balloc s) λ addr t. returns (addr, record ip { addrs = update ip.addrs i addr }) t)
    else returns (ip.addrs i, ip) s

-- `addr = a[j]` for the indirect block `ind`, a new block if there is none.
pub indirect : Inode → ℕ → ℕ → Fs → Result (ℕ × Inode)
indirect ip j ind s =
    let addr = get_word (s.blocks ind) (4 * j) in
    if addr == 0
    then (bind (balloc s) λ new t.
        bind (write_logged t ind (put_word (t.blocks ind) (4 * j) new)) λ x u. returns (new, ip) u)
    else returns (addr, ip) s

pub bmap : Fs → Inode → ℕ → Result (ℕ × Inode)
bmap s ip bn =
    if ltb bn ndirect
    then direct s ip bn
    else if ltb (bn - ndirect) nindirect
    then (bind (direct s ip ndirect) λ (ind, ip') t. indirect ip' (bn - ndirect) ind t)
    else panics s

-- `struct dinode`: 64 bytes, 8 to a block.
abbrev pub iblock : Fs → ℕ → ℕ
iblock s inum = inum / 8 + s.inodestart

abbrev pub dinode_at : ℕ → ℕ
dinode_at inum = 64 * (inum % 8)

-- The fields as `iupdate` writes them into the block, from the byte `o` on.
pub put_dinode : (ℕ → ℕ) → ℕ → Inode → ℕ → ℕ
put_dinode b o ip =
    let typed = put_half b o ip.type in
    let majored = put_half typed (o + 2) ip.major in
    let minored = put_half majored (o + 4) ip.minor in
    let linked = put_half minored (o + 6) ip.nlink in
    let sized = put_word linked (o + 8) ip.size in
    for_upto (ndirect + 1) (λ i c. put_word c (o + 12 + 4 * i) (ip.addrs i)) sized

unfoldable pub iupdate : Fs → Inode → Result (Unit {0})
iupdate s ip =
    let c = iblock s ip.inum in write_logged s c (put_dinode (s.blocks c) (dinode_at ip.inum) ip)

-- The fields as `ilock` reads them.
pub get_dinode : (ℕ → ℕ) → ℕ → ℕ → Inode
get_dinode b o inum = record {
  inum = inum;
  type = get_half b o;
  major = get_half b (o + 2);
  minor = get_half b (o + 4);
  nlink = get_half b (o + 6);
  size = get_word b (o + 8);
  addrs = λ i. get_word b (o + 12 + 4 * i);
}

-- The inode that `ilock` reads from the disk when the entry is not valid; `none` is its panic.
pub iread : Fs → ℕ → Option Inode
iread s inum =
    let ip = get_dinode (s.blocks (iblock s inum)) (dinode_at inum) inum in
    if ip.type == 0 then none else some ip

-- `bfree` of the block in slot `i`, if there is one.
pub free_slot : ℕ → Fs → Inode → Result Inode
free_slot i s ip =
    if ip.addrs i == 0
    then returns ip s
    else bind (bfree s (ip.addrs i)) λ x t. returns (record ip { addrs = update ip.addrs i 0 }) t

-- The first loop of `itrunc`, for the slots below `n`.
pub free_direct : ℕ → Fs → Inode → Result Inode
free_direct zero s ip = returns ip s
free_direct (suc n) s ip = bind (free_direct n s ip) λ ip' t. free_slot n t ip'

-- The second loop, for the entries below `n` of the indirect block, whose contents are `a`.
pub free_indirect : ℕ → (ℕ → ℕ) → Fs → Result (Unit {0})
free_indirect zero a s = returns tt s
free_indirect (suc n) a s =
    bind (free_indirect n a s)
      λ x t. let addr = get_word a (4 * n) in if addr == 0 then returns tt t else bfree t addr

pub itrunc : Fs → Inode → Result Inode
itrunc s ip = bind (free_direct ndirect s ip) λ ip1 s1.
    bind
      (if ip1.addrs ndirect == 0
        then returns ip1 s1
        else bind (free_indirect nindirect (s1.blocks (ip1.addrs ndirect)) s1)
            λ x s2. free_slot ndirect s2 ip1)
      λ ip3 s3.
        let ip4 : Inode = record ip3 { size = 0 } in bind (iupdate s3 ip4) λ y s4. returns ip4 s4
