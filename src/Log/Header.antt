-- ===== src/Log/Header.antt =====
-- What the header block says of the log, and what `write_head` and `read_head` do to it.
use cs537_sp2021_dis.Base.{ℕ, suc, ◌<◌, ◌≡◌, arith, update, for_upto, for_upto_inv}
use cs537_sp2021_dis.Disk.{Block}
use cs537_sp2021_dis.Log.{Log, head_block}

-- The header `h` lists the `n` first entries of `block`.
pub record Lists (h : Block) (n : ℕ) (block : ℕ → ℕ) : Type 0 where
  pub count : h 0 ≡ n
  pub entry : (i : ℕ) → i < n → h (suc i) ≡ block i

pub head_block-Lists : (l : Log) (buf : Block) → Lists (head_block l buf) l.n l.block
unfolding head_block
head_block-Lists l buf = record { count = rounds.0; entry = rounds.1 }
  where
    rounds :
        (for_upto l.n (λ i hb. update hb (suc i) (l.block i)) (update buf 0 l.n) 0 ≡ l.n)
        × ((i : ℕ)
            → i < l.n
            → for_upto l.n (λ i hb. update hb (suc i) (l.block i)) (update buf 0 l.n) (suc i)
              ≡ l.block i)
    rounds =
        for_upto_inv (λ k (h : Block). (h 0 ≡ l.n) × ((i : ℕ) → i < k → h (suc i) ≡ l.block i))
          (λ i hb. update hb (suc i) (l.block i)) l.n
          (λ k h lt p. (ground (arith, p.0), λ i below. ground (arith, p.1 i))) (update buf 0 l.n)
          (ground arith, λ i below. absurd (omega arith))

-- The in-memory copy that `read_head` makes.
pub read_entries :
    (h block : Block) (n i : ℕ)
    → i < n
    → for_upto n (λ i block. update block i (h (suc i))) block i ≡ h (suc i)
read_entries h block n =
    for_upto_inv (λ k (b : Block). (i : ℕ) → i < k → b i ≡ h (suc i))
      (λ i block. update block i (h (suc i))) n (λ k b lt p i below. ground (arith, p i)) block
      (λ i below. absurd (omega arith))
