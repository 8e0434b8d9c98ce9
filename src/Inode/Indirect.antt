-- ===== src/Inode/Indirect.antt =====
-- An entry of the indirect block: its block is found, or a new one is put there.
use cs537_sp2021_dis.Base.{
  ℕ, ◌+◌, ◌-◌, ◌*◌, ◌≤◌, ◌<◌, ◌≡◌, ◌≢◌, refl, ◌∙◌, sym, ap, subst, inr, true, false, arith, ◌==◌,
  if◌then◌else◌, update_ne, ℕ_discrete, dec_lt,
}
use cs537_sp2021_dis.Bytes.{get_word, put_word}
use cs537_sp2021_dis.Bytes.Laws.{get_word-put_word, get_word-put_word_apart}
use cs537_sp2021_dis.Fs.{Fs, Result, returns, panics, bind, used, stored, write_logged, balloc}
use cs537_sp2021_dis.Fs.Bitmap.{nmeta, logged_write, Extends-trans, stored-Extends, used-stored}
use cs537_sp2021_dis.Fs.Balloc.{Allocates, balloc-Allocates, Allocates-IsFs}
use cs537_sp2021_dis.Inode.{Inode, indirect}
use cs537_sp2021_dis.Inode.Slots.{slots, slot, IsFile, Sets, MapsTo, Maps}
use cs537_sp2021_dis.Inode.Direct.{Stuck-balloc, filled-MapsTo, used-ne, Sets-MapsTo}

-- The state in which the entry `j` of the indirect block `ind` holds `b`.
abbrev entered : Fs → ℕ → ℕ → ℕ → Fs
entered t ind j b = stored t ind (put_word (t.blocks ind) (4 * j) b)

module _ (s : Fs) (ip : Inode) (v : IsFile s ip) (some : ip.addrs 12 ≢ 0) where
  ind_above : nmeta s ≤ ip.addrs 12
  ind_above = v.low 12 (omega arith) some

  entry-slots :
      (j b : ℕ) (t : Fs)
      → j < 128
      → Allocates s (returns b t)
      → (k : ℕ) → k < slots
      → slot (entered t (ip.addrs 12) j b) ip k ≡ (if 13 + j == k then b else slot s ip k)
  entry-slots j b t lt (above, size, free, marked, zeroed, same, ext) k l = elim (dec_lt k 13) [
    | yes low ↦ ground (arith, low)
    | no high ↦
        let ne : ip.addrs 12 ≢ b = λ e. cc (v.in_use 12 (omega arith) some, free, e) in
        let block = same (ip.addrs 12) ne (inr ind_above) in
        let word = ap (λ c. get_word c (4 * (k - 13))) block in
        elim (ℕ_discrete (13 + j) k) [
          | yes here ↦
              let place : k - 13 ≡ j = omega (arith, here) in
              let got =
                get_word-put_word (t.blocks (ip.addrs 12)) (4 * j) b
                  (omega (arith, size, v.word)) in
              ground (arith, high, some, here, place, got)
          | no other ↦
              let got =
                get_word-put_word_apart (t.blocks (ip.addrs 12)) (4 * (k - 13)) (4 * j) b
                  (omega (arith, other, high)) in
              ground (arith, high, some, other, got, word)
        ]
  ]

  entry-Sets :
      (j b : ℕ) (t : Fs)
      → j < 128
      → Allocates s (returns b t)
      → Sets s ip (13 + j) b (entered t (ip.addrs 12) j b) ip
  entry-Sets j b t lt a =
      let vt = Allocates-IsFs s t b v.fs a in
      let metas : nmeta t ≡ nmeta s = omega (arith, (a.6).size, (a.6).bmapstart) in
      let same_used : (m : ℕ) → m < s.size → used (entered t (ip.addrs 12) j b) m ≡ used t m =
        λ m l.
          used-stored t (ip.addrs 12) (put_word (t.blocks (ip.addrs 12)) (4 * j) b) m
            (omega (arith, metas, ind_above)) (omega (arith, l, (a.6).size)) in
      record {
        slots_lem = entry-slots j b t lt a;
        above = a.0;
        below = a.1;
        unused = a.2;
        marked = λ m l. same_used m l ∙ a.3 m l;
        valid = record {
          inodes = vt.inodes;
          meta_used =
              λ m h. same_used m (omega (arith, h, vt.meta_size, (a.6).size)) ∙ vt.meta_used m h;
          meta_size = vt.meta_size;
        };
        ext =
            Extends-trans a.6
              (stored-Extends t (ip.addrs 12) (put_word (t.blocks (ip.addrs 12)) (4 * j) b));
      }

  entry-new :
      (j : ℕ) (r : Result ℕ)
      → j < 128
      → slot s ip (13 + j) ≡ 0
      → Allocates s r
      → Maps s ip (13 + j) (
          bind r λ new t.
            bind
              (write_logged t (ip.addrs 12) (put_word (t.blocks (ip.addrs 12)) (4 * j) new))
              λ x u. returns (new, ip) u)
  entry-new j (panics t) lt empty a = Stuck-balloc s t a
  entry-new j (returns b t) lt empty a =
      let ne : b ≢ ip.addrs 12 =
        λ e. used-ne s ip v b (ip.addrs 12) a.2 (v.in_use 12 (omega arith) some) (sym e) in
      logged_write (Maps s ip (13 + j)) t (ip.addrs 12)
        (put_word (t.blocks (ip.addrs 12)) (4 * j) b) (λ x u. returns (b, ip) u)
        (λ u full. inr full)
        (Sets-MapsTo s ip v (13 + j) b (entered t (ip.addrs 12) j b) ip (omega (arith, lt)) empty
          (entry-Sets j b t lt a) refl (λ k. ground (arith, ne, a.4 k))
          (λ c l h out n.
            update_ne t.blocks (ip.addrs 12) c (put_word (t.blocks (ip.addrs 12)) (4 * j) b)
              (λ e. n (sym e))
            ∙ a.5 c (used-ne s ip v b c a.2 h) out))

  pub indirect-Maps : (j : ℕ) → j < 128 → Maps s ip (13 + j) (indirect ip j (ip.addrs 12) s)
  unfolding indirect
  indirect-Maps j lt =
      let here : slot s ip (13 + j) ≡ get_word (s.blocks (ip.addrs 12)) (4 * j) =
        let place : 13 + j - 13 ≡ j = omega arith in simp place (ground (arith, some)) in
      elim (ℕ_discrete (get_word (s.blocks (ip.addrs 12)) (4 * j)) 0) [
        | yes empty ↦
            let e : (get_word (s.blocks (ip.addrs 12)) (4 * j) == 0) ≡ true =
              ground (arith, empty) in
            simp e (entry-new j (balloc s) lt (here ∙ empty) (balloc-Allocates s v.fs))
        | no filled ↦
            let e : (get_word (s.blocks (ip.addrs 12)) (4 * j) == 0) ≡ false =
              ground (arith, filled) in
            simp e (
              subst (λ b. MapsTo s ip (13 + j) b s ip) here
                (filled-MapsTo s ip v (13 + j) (omega (arith, lt)) (λ z. filled (sym here ∙ z))))
      ]
