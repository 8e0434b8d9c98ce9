-- ===== src/Contents/Loop.antt =====
-- The loop of `writei`.
use cs537_sp2021_dis.Base.{
  ℕ, zero, suc, ◌+◌, ◌-◌, ◌/◌, ◌%◌, ◌≤◌, ◌<◌, ◌≡◌, ◌≢◌, refl, ◌∙◌, sym, ap, subst, inl, inr, false,
  Bool-cases, arith, ◌==◌, ℕ_discrete, dec_lt,
}
use cs537_sp2021_dis.Fs.{Fs, bsize, Result, returns, panics, bind, used, stored, write_logged}
use cs537_sp2021_dis.Fs.Bitmap.{logged_write, Extends-trans}
use cs537_sp2021_dis.Inode.{Inode, bmap}
use cs537_sp2021_dis.Inode.Slots.{slot, IsFile, MapsTo, Maps}
use cs537_sp2021_dis.Inode.Bmap.{bmap-Maps}
use cs537_sp2021_dis.Contents.{chunk, copy_in, write_from}
use cs537_sp2021_dis.Contents.Write.{byte_slot, content, max_size, WritesTo, Writes, WritesTo-none}
use cs537_sp2021_dis.Contents.Rounds.{round-WritesTo}

-- A write of `m` bytes and then of the `k` bytes behind them.
module _ (s t u : Fs) (ip ip1 ip2 : Inode) (src : ℕ → ℕ) (off m k : ℕ)
    (top : off + m + k ≤ max_size) (a : WritesTo s ip src off m t ip1)
    (b : WritesTo t ip1 (λ i. src (i + m)) (off + m) k u ip2) where
  then-written : (o : ℕ) → off ≤ o → o < off + (m + k) → content u ip2 o ≡ src (o - off)
  then-written o lo hi = elim (dec_lt o (off + m)) [
    | yes first ↦
        b.kept o (omega (arith, top, hi)) (a.has_block o (omega (arith, top, hi)) (inr (lo, first)))
          (inl first)
        ∙ a.written o lo first
    | no second ↦
        let place : o - (off + m) + m ≡ o - off = omega (arith, second) in
        b.written o (omega (arith, second)) (omega (arith, hi)) ∙ ap src place
  ]

  pub WritesTo-then : WritesTo s ip src off (m + k) u ip2
  WritesTo-then = record {
    file = b.file;
    has_block = λ o l h. elim h [
      | inl was ↦ b.has_block o l (inl (a.has_block o l (inl was)))
      | inr range ↦ elim (dec_lt o (off + m)) [
        | yes first ↦ b.has_block o l (inl (a.has_block o l (inr (range.0, first))))
        | no second ↦ b.has_block o l (inr (omega (arith, second), omega (arith, range)))
      ]
    ];
    written = then-written;
    kept = λ o l h out.
        b.kept o l (a.has_block o l (inl h)) (omega (arith, out))
        ∙ a.kept o l h (omega (arith, out));
    fields = b.fields ∙ ap (λ (p : Inode). record p { addrs = ip2.addrs }) a.fields;
    still_used = λ c l h. b.still_used c (omega (arith, l, a.ext.size)) (a.still_used c l h);
    fresh = λ j l n. elim (b.fresh j l n) [
      | inl same ↦ elim (a.fresh j l (λ z. n (same ∙ z))) [
        | inl was ↦ inl (same ∙ was)
        | inr free ↦ inr (ap (used s) same ∙ free)
      ]
      | inr free ↦ elim (Bool-cases (used s (slot u ip2 j))) [
        | inr before ↦ inr before
        | inl was ↦
            let size : slot u ip2 j < s.size =
              omega (arith, (b.file).high j l n, b.ext.size, a.ext.size) in
            cc (a.still_used (slot u ip2 j) size was, free)
      ]
    ];
    frame = λ c l h out n apart.
        b.frame c (omega (arith, l, a.ext.size)) (a.still_used c l h)
          (omega (arith, out, a.ext.size, a.ext.bmapstart)) n
          (λ j lj e. elim (a.fresh j lj (λ z. n (sym e ∙ z))) [
            | inl was ↦ apart j lj (sym was ∙ e)
            | inr free ↦ cc (ap (used s) e, free, h)
          ])
        ∙ a.frame c l h out n apart;
    ext = Extends-trans a.ext b.ext;
  }

write_from-none :
    (fuel : ℕ) (s : Fs) (ip : Inode) (src : ℕ → ℕ) (off : ℕ)
    → write_from fuel s ip src off 0 ≡ returns ip s
unfolding write_from
write_from-none zero s ip src off = refl
write_from-none (suc fuel) s ip src off = refl

-- What a round does with the result of `bmap`.
after_bmap : ℕ → (ℕ → ℕ) → ℕ → ℕ → Result (ℕ × Inode) → Result Inode
after_bmap fuel src off n (panics t) = panics t
after_bmap fuel src off n (returns (a, ip1) t) =
    bind (write_logged t a (copy_in (t.blocks a) (off % bsize) src (chunk off n))) λ x u.
      write_from fuel u ip1 (λ i. src (i + chunk off n)) (off + chunk off n) (n - chunk off n)

bind-after_bmap :
    (fuel : ℕ) (src : ℕ → ℕ) (off n : ℕ) (r : Result (ℕ × Inode))
    → bind r (λ (a, ip1) t.
      bind (write_logged t a (copy_in (t.blocks a) (off % bsize) src (chunk off n))) λ x u.
        write_from fuel u ip1 (λ i. src (i + chunk off n)) (off + chunk off n) (n - chunk off n))
      ≡ after_bmap fuel src off n r
unfolding after_bmap
bind-after_bmap fuel src off n (panics t) = refl
bind-after_bmap fuel src off n (returns (a, ip1) t) = refl

write_from-some :
    (fuel : ℕ) (s : Fs) (ip : Inode) (src : ℕ → ℕ) (off n : ℕ)
    → n ≢ 0
    → write_from (suc fuel) s ip src off n ≡ after_bmap fuel src off n (bmap s ip (off / bsize))
unfolding write_from
write_from-some fuel s ip src off n h =
    let e : (n == 0) ≡ false = ground (arith, h) in
    rw e (bind-after_bmap fuel src off n (bmap s ip (off / bsize)))

Writes-then :
    (s t : Fs) (ip ip1 : Inode) (src : ℕ → ℕ) (off m k : ℕ)
    → off + m + k ≤ max_size
    → WritesTo s ip src off m t ip1
    → (r : Result Inode) → Writes t ip1 (λ i. src (i + m)) (off + m) k r
    → Writes s ip src off (m + k) r
Writes-then s t ip ip1 src off m k top a (panics u) full = full
Writes-then s t ip ip1 src off m k top a (returns ip2 u) b =
    WritesTo-then s t u ip ip1 ip2 src off m k top a b

chunk_bounds :
    (off n : ℕ)
    → n ≢ 0
    → (0 < chunk off n) × (chunk off n ≤ n) × (chunk off n ≤ bsize - off % bsize)
chunk_bounds off n h = ground (arith, h)

-- The first round and the others, which `next` is about.
after_bmap-Writes :
    (fuel : ℕ) (s : Fs) (ip : Inode) (src : ℕ → ℕ) (off n : ℕ)
    → IsFile s ip
    → n ≢ 0
    → off + n ≤ max_size
    → ((t : Fs) (ip1 : Inode)
        → IsFile t ip1
        → Writes t ip1
            (λ i. src (i + chunk off n))
            (off + chunk off n)
            (n - chunk off n)
            (write_from fuel t ip1
              (λ i. src (i + chunk off n))
              (off + chunk off n)
              (n - chunk off n)))
    → (r : Result (ℕ × Inode)) → Maps s ip (byte_slot off) r
    → Writes s ip src off n (after_bmap fuel src off n r)
unfolding after_bmap
after_bmap-Writes fuel s ip src off n v h top next (panics t) full = full
after_bmap-Writes fuel s ip src off n v h top next (returns (b, ip1) t) maps =
    let m = chunk off n in
    let (pos, most, room) = chunk_bounds off n h in
    let whole : m + (n - m) ≡ n = omega (arith, most) in
    let round : WritesTo s ip src off m (stored t b (copy_in (t.blocks b) (off % bsize) src m))
        ip1 =
      subst
        (λ a. WritesTo s ip src off m (stored t a (copy_in (t.blocks a) (off % bsize) src m)) ip1)
        maps.here
        (round-WritesTo s t ip ip1 src off m v (omega (arith, top, pos, most)) room
          (subst (λ a. MapsTo s ip (byte_slot off) a t ip1) (sym maps.here) maps)) in
    let t1 = stored t b (copy_in (t.blocks b) (off % bsize) src m) in
    logged_write (Writes s ip src off n) t b (copy_in (t.blocks b) (off % bsize) src m)
      (λ x u. write_from fuel u ip1 (λ i. src (i + m)) (off + m) (n - m)) (λ u full. inr full)
      (subst
        (λ k. Writes s ip src off k (write_from fuel t1 ip1 (λ i. src (i + m)) (off + m) (n - m)))
        whole
        (Writes-then s t1 ip ip1 src off m (n - m) (omega (arith, top, most)) round
          (write_from fuel t1 ip1 (λ i. src (i + m)) (off + m) (n - m)) (next t1 ip1 round.file)))

pub write_from-Writes :
    (fuel : ℕ) (s : Fs) (ip : Inode) (src : ℕ → ℕ) (off n : ℕ)
    → IsFile s ip
    → n ≤ fuel
    → off + n ≤ max_size
    → Writes s ip src off n (write_from fuel s ip src off n)
write_from-Writes zero s ip src off n v enough top =
    let e : n ≡ 0 = omega (arith, enough) in
    subst (λ k. Writes s ip src off k (write_from zero s ip src off k)) (sym e)
      (subst (Writes s ip src off 0) (sym (write_from-none zero s ip src off))
        (WritesTo-none s ip src off v))
write_from-Writes (suc fuel) s ip src off n v enough top = elim (ℕ_discrete n 0) [
  | yes e ↦
      subst (λ k. Writes s ip src off k (write_from (suc fuel) s ip src off k)) (sym e)
        (subst (Writes s ip src off 0) (sym (write_from-none (suc fuel) s ip src off))
          (WritesTo-none s ip src off v))
  | no h ↦
      let (pos, most, room) = chunk_bounds off n h in
      subst (Writes s ip src off n) (sym (write_from-some fuel s ip src off n h)) (
        after_bmap-Writes fuel s ip src off n v h top
          (λ t ip1 w.
            write_from-Writes fuel t ip1 (λ i. src (i + chunk off n)) (off + chunk off n)
              (n - chunk off n) w (omega (arith, pos, enough)) (omega (arith, most, top)))
          (bmap s ip (off / bsize)) (bmap-Maps s ip (off / bsize) v (omega (arith, top, h))))
]
