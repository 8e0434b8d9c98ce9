-- ===== src/Inode/Dinode.antt =====
-- An inode in its block, by the layout of `struct dinode` (xv6/fs.h): what iupdate leaves there.
use cs537_sp2021_dis.Base.{
  ℕ, zero, suc, ◌+◌, ◌*◌, ◌%◌, ◌^◌, ◌≤◌, ◌<◌, ◌≡◌, refl, ◌∙◌, sym, ap, ◌⊎◌, inl, arith, for_upto,
  ℕ_discrete,
}
use cs537_sp2021_dis.Bytes.{get_half, put_half, get_word, put_word}
use cs537_sp2021_dis.Bytes.Laws.{
  put_word-outside, put_half-outside, get_word-same, get_word-put_word_apart,
}
use cs537_sp2021_dis.Inode.{Inode, put_dinode}

-- The fields of `ip` stand at the byte `o`, each as the bits of its C type.
pub record HasDinode (b : ℕ → ℕ) (o : ℕ) (ip : Inode) : Type 0 where
  pub type : get_half b o ≡ ip.type % 2 ^ 16
  pub major : get_half b (o + 2) ≡ ip.major % 2 ^ 16
  pub minor : get_half b (o + 4) ≡ ip.minor % 2 ^ 16
  pub nlink : get_half b (o + 6) ≡ ip.nlink % 2 ^ 16
  pub size : get_word b (o + 8) ≡ ip.size % 2 ^ 32
  pub addrs : (k : ℕ) → k < 13 → get_word b (o + 12 + 4 * k) ≡ ip.addrs k % 2 ^ 32

get_word-put_word_bits : (b : ℕ → ℕ) (o v : ℕ) → get_word (put_word b o v) o ≡ v % 2 ^ 32
unfolding get_word put_word
get_word-put_word_bits b o v = ground arith

get_half-put_half_bits : (b : ℕ → ℕ) (o v : ℕ) → get_half (put_half b o v) o ≡ v % 2 ^ 16
unfolding get_half put_half
get_half-put_half_bits b o v = ground arith

get_half-same :
    (b c : ℕ → ℕ) (o : ℕ) → ((a : ℕ) → o ≤ a → a < o + 2 → c a ≡ b a) → get_half c o ≡ get_half b o
unfolding get_half
get_half-same b c o h =
    ground (arith, h o (omega arith) (omega arith), h (o + 1) (omega arith) (omega arith))

-- The loop on `addrs`.
put_addrs : (ℕ → ℕ) → ℕ → (ℕ → ℕ) → ℕ → ℕ → ℕ
put_addrs b o f n = for_upto n (λ i c. put_word c (o + 12 + 4 * i) (f i)) b

put_addrs-outside :
    (b : ℕ → ℕ) (o : ℕ) (f : ℕ → ℕ) (n a : ℕ)
    → (a < o + 12) ⊎ (o + 12 + 4 * n ≤ a)
    → put_addrs b o f n a ≡ b a
unfolding put_addrs for_upto
put_addrs-outside b o f zero a h = refl
put_addrs-outside b o f (suc n) a h =
    put_word-outside (put_addrs b o f n) (o + 12 + 4 * n) (f n) a (omega (arith, h))
    ∙ put_addrs-outside b o f n a (omega (arith, h))

put_addrs-at :
    (b : ℕ → ℕ) (o : ℕ) (f : ℕ → ℕ) (n k : ℕ)
    → k < n
    → get_word (put_addrs b o f n) (o + 12 + 4 * k) ≡ f k % 2 ^ 32
unfolding put_addrs for_upto
put_addrs-at b o f zero k lt = absurd (omega (arith, lt))
put_addrs-at b o f (suc n) k lt = elim (ℕ_discrete k n) [
  | yes last ↦
      ap (λ j. get_word (put_addrs b o f (suc n)) (o + 12 + 4 * j)) last
      ∙ get_word-put_word_bits (put_addrs b o f n) (o + 12 + 4 * n) (f n)
      ∙ ap (λ j. f j % 2 ^ 32) (sym last)
  | no other ↦
      get_word-put_word_apart (put_addrs b o f n) (o + 12 + 4 * k) (o + 12 + 4 * n) (f n)
        (omega (arith, other, lt))
      ∙ put_addrs-at b o f n k (omega (arith, other, lt))
]

module _ (b : ℕ → ℕ) (o : ℕ) (ip : Inode) where
  abbrev typed : ℕ → ℕ
  typed = put_half b o ip.type

  abbrev majored : ℕ → ℕ
  majored = put_half typed (o + 2) ip.major

  abbrev minored : ℕ → ℕ
  minored = put_half majored (o + 4) ip.minor

  abbrev linked : ℕ → ℕ
  linked = put_half minored (o + 6) ip.nlink

  abbrev sized : ℕ → ℕ
  sized = put_word linked (o + 8) ip.size

  steps : put_dinode b o ip ≡ put_addrs sized o ip.addrs 13
  unfolding put_dinode put_addrs
  steps = refl

  -- What the later stores leave.
  before_addrs : (a : ℕ) → a < o + 12 → put_dinode b o ip a ≡ sized a
  before_addrs a lt = ap (λ f. f a) steps ∙ put_addrs-outside sized o ip.addrs 13 a (inl lt)

  before_size : (a : ℕ) → a < o + 8 → put_dinode b o ip a ≡ linked a
  before_size a lt =
      before_addrs a (omega (arith, lt)) ∙ put_word-outside linked (o + 8) ip.size a (inl lt)

  before_nlink : (a : ℕ) → a < o + 6 → put_dinode b o ip a ≡ minored a
  before_nlink a lt =
      before_size a (omega (arith, lt)) ∙ put_half-outside minored (o + 6) ip.nlink a (inl lt)

  before_minor : (a : ℕ) → a < o + 4 → put_dinode b o ip a ≡ majored a
  before_minor a lt =
      before_nlink a (omega (arith, lt)) ∙ put_half-outside majored (o + 4) ip.minor a (inl lt)

  before_major : (a : ℕ) → a < o + 2 → put_dinode b o ip a ≡ typed a
  before_major a lt =
      before_minor a (omega (arith, lt)) ∙ put_half-outside typed (o + 2) ip.major a (inl lt)

  pub put_dinode-HasDinode : HasDinode (put_dinode b o ip) o ip
  put_dinode-HasDinode = record {
    type =
        get_half-same typed (put_dinode b o ip) o (λ a lo hi. before_major a hi)
        ∙ get_half-put_half_bits b o ip.type;
    major =
        get_half-same majored (put_dinode b o ip) (o + 2)
          (λ a lo hi. before_minor a (omega (arith, hi)))
        ∙ get_half-put_half_bits typed (o + 2) ip.major;
    minor =
        get_half-same minored (put_dinode b o ip) (o + 4)
          (λ a lo hi. before_nlink a (omega (arith, hi)))
        ∙ get_half-put_half_bits majored (o + 4) ip.minor;
    nlink =
        get_half-same linked (put_dinode b o ip) (o + 6)
          (λ a lo hi. before_size a (omega (arith, hi)))
        ∙ get_half-put_half_bits minored (o + 6) ip.nlink;
    size =
        get_word-same sized (put_dinode b o ip) (o + 8)
          (λ a lo hi. before_addrs a (omega (arith, hi)))
        ∙ get_word-put_word_bits linked (o + 8) ip.size;
    addrs =
        λ k lt. ap (λ f. get_word f (o + 12 + 4 * k)) steps ∙ put_addrs-at sized o ip.addrs 13 k lt;
  }

  -- The other inodes of the block.
  pub put_dinode-outside : (a : ℕ) → (a < o) ⊎ (o + 64 ≤ a) → put_dinode b o ip a ≡ b a
  put_dinode-outside a h =
      ap (λ f. f a) steps
      ∙ put_addrs-outside sized o ip.addrs 13 a (omega (arith, h))
      ∙ put_word-outside linked (o + 8) ip.size a (omega (arith, h))
      ∙ put_half-outside minored (o + 6) ip.nlink a (omega (arith, h))
      ∙ put_half-outside majored (o + 4) ip.minor a (omega (arith, h))
      ∙ put_half-outside typed (o + 2) ip.major a (omega (arith, h))
      ∙ put_half-outside b o ip.type a (omega (arith, h))
