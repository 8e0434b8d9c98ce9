-- ===== src/Inode/Direct.antt =====
-- A slot of the inode itself: its block is found, or a new one is put there.
use cs537_sp2021_dis.Base.{
  ℕ, ◌+◌, ◌-◌, ◌*◌, ◌<◌, ◌≡◌, ◌≢◌, refl, ◌∙◌, sym, ap, subst, inl, inr, true, false, arith, ◌==◌,
  if◌then◌else◌, update, ℕ_discrete, dec_lt,
}
use cs537_sp2021_dis.Bytes.{get_word}
use cs537_sp2021_dis.Fs.{Fs, Result, returns, panics, bind, used, balloc}
use cs537_sp2021_dis.Fs.Bitmap.{Extends-refl}
use cs537_sp2021_dis.Fs.Balloc.{Apart, Allocates, balloc-Allocates, Allocates-IsFs}
use cs537_sp2021_dis.Inode.{Inode, direct}
use cs537_sp2021_dis.Inode.Slots.{slots, slot, IsFile, Sets, MapsTo, Stuck, Maps, Sets-IsFile}

-- A word of a block of zeros.
zero_word : (b : ℕ → ℕ) (o : ℕ) → ((k : ℕ) → b k ≡ 0) → get_word b o ≡ 0
unfolding get_word
zero_word b o h = ground (arith, h o, h (o + 1), h (o + 2), h (o + 3))

-- A panic of `balloc`.
pub Stuck-balloc : (s t : Fs) → Allocates s (panics t) → Stuck t
Stuck-balloc s t (inl h) = inl (subst (λ u. (j : ℕ) → j < u.size → used u j ≡ true) (sym h.0) h.1)
Stuck-balloc s t (inr full) = inr full

module _ (s : Fs) (ip : Inode) (v : IsFile s ip) where
  -- The slot is filled already.
  pub filled-MapsTo : (i : ℕ) → i < slots → slot s ip i ≢ 0 → MapsTo s ip i (slot s ip i) s ip
  filled-MapsTo i lt ne = record {
    file = v;
    nonzero = ne;
    here = refl;
    others = λ k l n m. refl;
    kept = λ k l n. refl;
    fields = refl;
    still_used = λ c l h. h;
    frame = λ c l h out n. refl;
    new = λ e. absurd (ne e);
    old = λ n. (refl, refl);
    fresh = λ k l n. inl refl;
    ext = Extends-refl s;
  }

  -- The slot `i`, one of those in the inode, gets a new block.
  direct-slots :
      (i b : ℕ) (t : Fs)
      → i < 13
      → ip.addrs i ≡ 0
      → Allocates s (returns b t)
      → (k : ℕ) → k < slots
      → slot t (record ip { addrs = update ip.addrs i b }) k ≡ (if i == k then b else slot s ip k)
  direct-slots i b t lt empty (above, size, free, marked, zeroed, same, ext) k l =
      elim (dec_lt k 13) [
        | yes low ↦ ground (arith, low)
        | no high ↦ elim (ℕ_discrete i 12) [
          | yes ind ↦
              let zeros = zero_word (t.blocks b) (4 * (k - 13)) zeroed in
              ground (arith, ind, empty, high, zeros)
          | no other ↦ elim (ℕ_discrete (ip.addrs 12) 0) [
            | yes none ↦ ground (arith, high, other, none, lt)
            | no some ↦
                let slot12 = v.in_use 12 (omega arith) some in
                let ne : ip.addrs 12 ≢ b = λ e. cc (slot12, free, e) in
                let block = same (ip.addrs 12) ne (inr (v.low 12 (omega arith) some)) in
                let word = ap (λ c. get_word c (4 * (k - 13))) block in
                ground (arith, high, other, some, lt, word)
          ]
        ]
      ]

  direct-Sets :
      (i b : ℕ) (t : Fs)
      → i < 13
      → ip.addrs i ≡ 0
      → Allocates s (returns b t)
      → Sets s ip i b t (record ip { addrs = update ip.addrs i b })
  direct-Sets i b t lt empty a = record {
    slots_lem = direct-slots i b t lt empty a;
    above = a.0;
    below = a.1;
    unused = a.2;
    marked = a.3;
    valid = Allocates-IsFs s t b v.fs a;
    ext = a.6;
  }

  marked_still :
      (b : ℕ) (t : Fs)
      → ((j : ℕ) → j < s.size → used t j ≡ (if b == j then true else used s j))
      → (c : ℕ) → c < s.size
      → used s c ≡ true
      → used t c ≡ true
  marked_still b t marked c l h = marked c l ∙ ground (arith, h)

  pub used-ne : (b c : ℕ) → used s b ≡ false → used s c ≡ true → c ≢ b
  used-ne b c free h e = cc (free, ap (used s) e, h)

  -- What is left of `MapsTo` when a slot is set.
  pub Sets-MapsTo :
      (i b : ℕ) (t : Fs) (ip' : Inode)
      → i < slots
      → slot s ip i ≡ 0
      → Sets s ip i b t ip'
      → ip' ≡ record ip { addrs = ip'.addrs }
      → ((k : ℕ) → t.blocks b k ≡ 0)
      → ((c : ℕ)
          → c < s.size
          → used s c ≡ true
          → Apart s c
          → c ≢ slot s ip 12
          → t.blocks c ≡ s.blocks c)
      → MapsTo s ip i b t ip'
  Sets-MapsTo i b t ip' lt empty h fields zeroed frame = record {
    file = Sets-IsFile s t ip ip' i b v empty h;
    nonzero = omega (arith, h.above);
    here = h.slots_lem i lt ∙ ground arith;
    others = λ k l n m. h.slots_lem k l ∙ ground (arith, n);
    kept = λ k l n.
        let other : i ≢ k = λ e. n (ap (slot s ip) (sym e) ∙ empty) in
        h.slots_lem k l ∙ ground (arith, other);
    fields = fields;
    still_used = marked_still b t h.marked;
    frame = frame;
    new = λ e. (h.unused, zeroed);
    old = λ n. absurd (n empty);
    fresh = λ k l n. elim (ℕ_discrete i k) [
      | yes same ↦
          let e : slot t ip' k ≡ b = h.slots_lem k l ∙ ground (arith, same) in
          inr (ap (used s) e ∙ h.unused)
      | no other ↦ inl (h.slots_lem k l ∙ ground (arith, other))
    ];
    ext = h.ext;
  }

  direct-new :
      (i : ℕ) (r : Result ℕ)
      → i < 13
      → ip.addrs i ≡ 0
      → Allocates s r
      → Maps s ip i
          (bind r (λ addr t. returns (addr, record ip { addrs = update ip.addrs i addr }) t))
  direct-new i (panics t) lt empty a = Stuck-balloc s t a
  direct-new i (returns b t) lt empty a =
      Sets-MapsTo i b t (record ip { addrs = update ip.addrs i b }) (omega (arith, lt))
        (ground (arith, lt, empty)) (direct-Sets i b t lt empty a) refl a.4
        (λ c l h out n. a.5 c (used-ne b c a.2 h) out)

  pub direct-Maps : (i : ℕ) → i < 13 → Maps s ip i (direct s ip i)
  unfolding direct
  direct-Maps i lt = elim (ℕ_discrete (ip.addrs i) 0) [
    | yes empty ↦
        let e : (ip.addrs i == 0) ≡ true = ground (arith, empty) in
        simp e (direct-new i (balloc s) lt empty (balloc-Allocates s v.fs))
    | no filled ↦
        let e : (ip.addrs i == 0) ≡ false = ground (arith, filled) in
        let here : slot s ip i ≡ ip.addrs i = ground (arith, lt) in
        simp e (
          subst (λ b. MapsTo s ip i b s ip) here
            (filled-MapsTo i (omega (arith, lt)) (λ z. filled (sym here ∙ z))))
  ]
