-- ===== src/Contents.antt =====
-- xv6/fs.c: `readi` and `writei`, on the contents of an inode. `src` gives the bytes from the address
-- `src` on; what is read is returned as a list. The table `devsw` of the device functions is an
-- argument. Each round of a loop moves at least one byte, so `n` rounds are enough.
pub mod Write
pub mod Rounds
pub mod Loop
pub mod Low
pub mod File
pub mod Read
mod Tests
use cs537_sp2021_dis.Base.{
  ℕ, zero, suc, ◌+◌, ◌-◌, ◌*◌, ◌/◌, ◌%◌, ◌^◌, Bool, true, false, not, ◌&&◌, ◌||◌, Option, none,
  some, List, [], ◌∷◌, ◌++◌, ltb, leb, ◌==◌, if◌then◌else◌, update,
}
use cs537_sp2021_dis.Fs.{Fs, bsize, write_logged, Result, returns, panics, bind}
use cs537_sp2021_dis.Inode.{Inode, maxfile, t_dev, bmap, iupdate}

-- xv6/param.h
abbrev pub ndev : ℕ
ndev = 10

-- `min(n, BSIZE - off%BSIZE)`
abbrev pub chunk : ℕ → ℕ → ℕ
chunk off n = if ltb n (bsize - off % bsize) then n else bsize - off % bsize

-- The `n` values of `f` from `off` on.
pub bytes : (ℕ → ℕ) → ℕ → ℕ → List ℕ
bytes f off zero = []
bytes f off (suc n) = f off ∷ bytes f (off + 1) n

-- `memmove(b + o, src, m)`
abbrev pub copy_in : (ℕ → ℕ) → ℕ → (ℕ → ℕ) → ℕ → ℕ → ℕ
copy_in b o src m i = if leb o i && ltb i (o + m) then src (i - o) else b i

pub read_from : ℕ → Fs → Inode → ℕ → ℕ → Result (List ℕ × Inode)
read_from zero s ip off n = returns ([], ip) s
read_from (suc fuel) s ip off n =
    let m = chunk off n in
    let rest = bind (bmap s ip (off / bsize)) λ (a, ip1) t.
      bind (read_from fuel t ip1 (off + m) (n - m))
        λ (text, ip2) u. returns (bytes (t.blocks a) (off % bsize) m ++ text, ip2) u in
    if n == 0 then returns ([], ip) s else rest

-- `off + n < off` with `uint`s
abbrev pub overflows : ℕ → ℕ → Bool
overflows off n = ltb ((off + n) % 2 ^ 32) off

-- The result none is -1; a device may give it too.
pub readi :
    (ℕ → Option (ℕ → Option (List ℕ))) → Fs → Inode → ℕ → ℕ → Result (Option (List ℕ) × Inode)
readi devsw s ip off n =
    let left = if ltb ip.size ((off + n) % 2 ^ 32) then ip.size - off else n in
    if ip.type == t_dev
    then if leb ndev ip.major then returns (none, ip) s else elim (devsw ip.major) [
      | none ↦ returns (none, ip) s
      | some read ↦ returns (read n, ip) s
    ]
    else if ltb ip.size off || overflows off n
    then returns (none, ip) s
    else (bind (read_from left s ip off left) λ (text, ip') t. returns (some text, ip') t)

pub write_from : ℕ → Fs → Inode → (ℕ → ℕ) → ℕ → ℕ → Result Inode
write_from zero s ip src off n = returns ip s
write_from (suc fuel) s ip src off n =
    let m = chunk off n in
    let rest = bind (bmap s ip (off / bsize)) λ (a, ip1) t.
      bind (write_logged t a (copy_in (t.blocks a) (off % bsize) src m))
        λ x u. write_from fuel u ip1 (λ i. src (i + m)) (off + m) (n - m) in
    if n == 0 then returns ip s else rest

-- `off` is what the loop leaves it at.
pub grow : Inode → ℕ → ℕ → Fs → Result (Option ℕ × Inode)
grow ip off n s =
    let ip' : Inode = record ip { size = off } in
    if ltb 0 n && ltb ip.size off
    then (bind (iupdate s ip') λ x t. returns (some n, ip') t)
    else returns (some n, ip) s

pub writei : (ℕ → Option (ℕ → Option ℕ)) → Fs → Inode → (ℕ → ℕ) → ℕ → ℕ → Result (Option ℕ × Inode)
writei devsw s ip src off n =
    if ip.type == t_dev
    then if leb ndev ip.major then returns (none, ip) s else elim (devsw ip.major) [
      | none ↦ returns (none, ip) s
      | some write ↦ returns (write n, ip) s
    ]
    else if ltb ip.size off || overflows off n
    then returns (none, ip) s
    else if ltb (maxfile * bsize) ((off + n) % 2 ^ 32)
    then returns (none, ip) s
    else (bind (write_from n s ip src off n) λ ip' t. grow ip' (off + n) n t)
