-- ===== src/Contents/Read.antt =====
-- What `readi` gives of a file.
use cs537_sp2021_dis.Base.{
  ℕ, zero, suc, ◌+◌, ◌-◌, ◌/◌, ◌%◌, ◌^◌, ◌≤◌, ◌<◌, ◌≡◌, ◌≢◌, refl, ◌∙◌, sym, ap, inl, inr, true,
  false, List, [], ◌∷◌, ◌++◌, length, Bool-cases, arith, ltb, leb, ◌==◌, if◌then◌else◌, ℕ_discrete,
  Option, none, some, ◌||◌,
}
use cs537_sp2021_dis.Fs.{Fs, bsize, returns}
use cs537_sp2021_dis.Inode.{Inode, bmap}
use cs537_sp2021_dis.Inode.Slots.{slot}
use cs537_sp2021_dis.Inode.Bmap.{slot_of}
use cs537_sp2021_dis.Contents.{overflows}
use cs537_sp2021_dis.Inode.{t_dev}
use cs537_sp2021_dis.Contents.Write.{byte_slot, content}
use cs537_sp2021_dis.Inode.Bmap.{bmap-filled}
use cs537_sp2021_dis.Contents.{chunk, bytes, read_from, overflows, readi}
use cs537_sp2021_dis.Contents.File.{IsRegular}

bytes-append :
    (f : ℕ → ℕ) (off m k : ℕ) → bytes f off m ++ bytes f (off + m) k ≡ bytes f off (m + k)
unfolding bytes
bytes-append f off zero k =
    let e : off + 0 ≡ off = omega arith in let z : 0 + k ≡ k = omega arith in simp (e, z) refl
bytes-append f off (suc m) k =
    let e : off + suc m ≡ off + 1 + m = omega arith in
    let z : suc m + k ≡ suc (m + k) = omega arith in
    simp (e, z) (ap (λ t. f off ∷ t) (bytes-append f (off + 1) m k))

-- Equal bytes, from two places.
bytes-same :
    (f g : ℕ → ℕ) (o p n : ℕ)
    → ((i : ℕ) → i < n → f (o + i) ≡ g (p + i))
    → bytes f o n ≡ bytes g p n
unfolding bytes
bytes-same f g o p zero h = refl
bytes-same f g o p (suc n) h =
    let first : f o ≡ g p = ground (arith, h 0 (omega arith)) in
    cc (
      first,
      bytes-same f g (o + 1) (p + 1) n (λ i l. ground (arith, h (suc i) (omega (arith, l)))),
    )

pub length-bytes : (f : ℕ → ℕ) (off n : ℕ) → length (bytes f off n) ≡ n
unfolding bytes
length-bytes f off zero = refl
length-bytes f off (suc n) = omega (arith, length-bytes f (off + 1) n)

read_from-none :
    (fuel : ℕ) (s : Fs) (ip : Inode) (off : ℕ) → read_from fuel s ip off 0 ≡ returns ([], ip) s
unfolding read_from
read_from-none zero s ip off = refl
read_from-none (suc fuel) s ip off = refl

read_from-some :
    (fuel : ℕ) (s : Fs) (ip : Inode) (off n a : ℕ) (text : List ℕ)
    → n ≢ 0
    → bmap s ip (off / bsize) ≡ returns (a, ip) s
    → read_from fuel s ip (off + chunk off n) (n - chunk off n) ≡ returns (text, ip) s
    → read_from (suc fuel) s ip off n
      ≡ returns (bytes (s.blocks a) (off % bsize) (chunk off n) ++ text, ip) s
unfolding read_from
read_from-some fuel s ip off n a text h e1 e2 =
    let e : (n == 0) ≡ false = ground (arith, h) in rw (e, e1, e2) refl

chunk_bounds :
    (off n : ℕ)
    → n ≢ 0
    → (0 < chunk off n) × (chunk off n ≤ n) × (chunk off n ≤ bsize - off % bsize)
chunk_bounds off n h = ground (arith, h)

-- A chunk is the bytes of one block.
chunk-content :
    (s : Fs) (ip : Inode) (off m : ℕ)
    → m ≤ bsize - off % bsize
    → bytes (s.blocks (slot s ip (byte_slot off))) (off % bsize) m ≡ bytes (content s ip) off m
chunk-content s ip off m room =
    bytes-same (s.blocks (slot s ip (byte_slot off))) (content s ip) (off % bsize) off m λ i l.
      let block : (off + i) / bsize ≡ off / bsize = omega (arith, l, room) in
      let place : (off + i) % bsize ≡ off % bsize + i = omega (arith, l, room) in
      ap (λ b. s.blocks (slot s ip (slot_of b)) (off % bsize + i)) (sym block)
      ∙ ap (s.blocks (slot s ip (byte_slot (off + i)))) (sym place)

read_from_lem :
    (fuel : ℕ) (s : Fs) (ip : Inode) (off n : ℕ)
    → IsRegular s ip
    → n ≤ fuel
    → off + n ≤ ip.size
    → read_from fuel s ip off n ≡ returns (bytes (content s ip) off n, ip) s
unfolding bytes
read_from_lem zero s ip off n v enough inside =
    let e : n ≡ 0 = omega (arith, enough) in rw e (read_from-none zero s ip off)
read_from_lem (suc fuel) s ip off n v enough inside = elim (ℕ_discrete n 0) [
  | yes e ↦ rw e (read_from-none (suc fuel) s ip off)
  | no h ↦
      let m = chunk off n in
      let (pos, most, room) = chunk_bounds off n h in
      let whole : m + (n - m) ≡ n = omega (arith, most) in
      let block =
        bmap-filled s ip (off / bsize) (omega (arith, inside, v.most, h))
          (v.full off (omega (arith, inside, h))) in
      let rest =
        read_from_lem fuel s ip (off + m) (n - m) v (omega (arith, pos, enough))
          (omega (arith, most, inside)) in
      read_from-some fuel s ip off n (slot s ip (byte_slot off))
        (bytes (content s ip) (off + m) (n - m)) h block rest
      ∙ ap (λ t. returns (t ++ bytes (content s ip) (off + m) (n - m), ip) s)
          (chunk-content s ip off m room)
      ∙ ap (λ t. returns (t, ip) s)
          (bytes-append (content s ip) off m (n - m) ∙ ap (bytes (content s ip) off) whole)
]

-- On a regular file without holes, `readi` of `n` bytes at `off` returns -1 when `off` is behind the
-- end, or when `off + n` wraps around; else it returns the bytes of the file from `off` on, `n` of
-- them or those up to the end. It changes nothing and never panics.
pub readi_lem :
    (devsw : ℕ → Option (ℕ → Option (List ℕ))) (s : Fs) (ip : Inode) (off n : ℕ)
    → IsRegular s ip
    → off < 2 ^ 32
    → n < 2 ^ 32
    → readi devsw s ip off n
      ≡ returns
          (
            (if ltb ip.size off || leb (2 ^ 32) (off + n)
                then none
                else some (
                    bytes (content s ip) off (if ltb (ip.size - off) n then ip.size - off else n))),
            ip,
          )
          s
unfolding readi
readi_lem devsw s ip off n v lo ln =
    let file : (ip.type == t_dev) ≡ false = ground (arith, v.regular) in
    elim (Bool-cases (ltb ip.size off || leb (2 ^ 32) (off + n))) [
      | inl out ↦
          let e : (ltb ip.size off || overflows off n) ≡ true = ground (arith, out, lo, ln) in
          rw (file, e, out) refl
      | inr inside ↦
          let e : (ltb ip.size off || overflows off n) ≡ false = ground (arith, inside, lo, ln) in
          let left : (if ltb ip.size ((off + n) % 2 ^ 32) then ip.size - off else n)
              ≡ (if ltb (ip.size - off) n then ip.size - off else n) =
            ground (arith, inside, lo, ln) in
          let all : off + (if ltb (ip.size - off) n then ip.size - off else n) ≤ ip.size =
            ground (arith, inside) in
          let k : ℕ = if ltb (ip.size - off) n then ip.size - off else n in
          let found = read_from_lem k s ip off k v (omega arith) all in
          rw (file, e, inside, left, found) refl
    ]
