-- ===== src/Fs/Logged.antt =====
-- The log under the file system is that of xv6/log.c: a write here panics exactly where `log_write` does,
-- and leaves the log that `log_write` leaves.
use cs537_sp2021_dis.Base.{
  ℕ, ◌-◌, ◌≡◌, refl, ap, true, false, ◌||◌, none, some, inl, inr, arith, ltb, leb, Bool-cases,
  update,
}
use cs537_sp2021_dis.Log.{Sys, log_size, log_write, record_block}
use cs537_sp2021_dis.Fs.{Fs, refuses, stored}

pub log_write-refuses : (s : Sys) (b : ℕ) → refuses s.log ≡ true → log_write s b ≡ none
unfolding log_write
log_write-refuses s b h = elim (Bool-cases (leb log_size s.n || leb (s.size - 1) s.n)) [
  | inl full ↦ rw full refl
  | inr room ↦
      let closed : ltb s.outstanding 1 ≡ true = ground (arith, h, room) in rw (room, closed) refl
]

pub log_write-stored :
    (s : Sys) (fs : Fs) (b : ℕ) (c : ℕ → ℕ)
    → s.log ≡ fs.log
    → refuses s.log ≡ false
    → (t : Sys) × (log_write s b ≡ some t) × (t.log ≡ (stored fs b c).log)
unfolding log_write
log_write-stored s fs b c e h =
    let room : (leb log_size s.n || leb (s.size - 1) s.n) ≡ false = ground (arith, h) in
    let begun : ltb s.outstanding 1 ≡ false = ground (arith, h) in
    (
      record s {
        log = record_block s.log b;
        store = record (s.store) { dirty = update s.dirty b true };
      },
      rw (room, begun) refl,
      ap (λ l. record_block l b) e,
    )
