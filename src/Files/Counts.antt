-- ===== src/Files/Counts.antt =====
-- The table with its holders: `held f` is the number of descriptors, and of other owned references,
-- that refer to the file `f`. Who holds a reference passes it to `filedup` and, once, to `fileclose`.
use cs537_sp2021_dis.Base.{
  ℕ, ◌+◌, ◌-◌, ◌<◌, ◌≡◌, ◌≢◌, refl, ◌⊎◌, inl, inr, subst, Option, none, some, List, [], ◌∷◌, arith,
  ◌==◌, update, Finds, find_first, find_first-Finds, ℕ_discrete, ◌∙◌, sym,
}
use cs537_sp2021_dis.Files.{
  nfile, FdType, fd_none, fd_pipe, fd_inode, File, Effect, pipecloses, begins, iputs, ends,
  filealloc, filedup, teardown, fileclose,
}

pub record Holders : Type 0 where
  pub table : ℕ → File
  pub held : ℕ → ℕ

pub data Step (s t : Holders) : Type 0 where
  allocs :
      (f : ℕ)
      → filealloc s.table ≡ (t.table, some f)
      → t.held ≡ update s.held f (s.held f + 1)
      → Step s t
  dups :
      (f : ℕ)
      → 0 < s.held f
      → filedup s.table f ≡ some t.table
      → t.held ≡ update s.held f (s.held f + 1)
      → Step s t
  closes :
      (f : ℕ) (effects : List Effect)
      → 0 < s.held f
      → fileclose s.table f ≡ some (t.table, effects)
      → t.held ≡ update s.held f (s.held f - 1)
      → Step s t

pub data Reach (start : Holders) : Holders → Type 0 where
  here : Reach start start
  next : {s t : Holders} → Reach start s → Step s t → Reach start t

-- Every count is the number of references.
abbrev pub Counts : Holders → Type 0
Counts s = (f : ℕ) → (s.table f).ref ≡ s.held f

-- A result of `filealloc`: a file that nobody refers to, or none when all are referred to.
abbrev pub Allocs : (ℕ → File) → (ℕ → File) × Option ℕ → Type 0
Allocs t (u, some f) = (f < nfile) × ((t f).ref ≡ 0) × (u ≡ update t f (record (t f) { ref = 1 }))
Allocs t (u, none) = (u ≡ t) × ((f : ℕ) → f < nfile → (t f).ref ≢ 0)

alloc_at :
    (t : ℕ → File) (r : Option ℕ)
    → Finds (λ i. (t i).ref == 0) nfile r
    → Allocs t
        (elim r [ none ↦ (t, none) | some i ↦ (update t i (record (t i) { ref = 1 }), some i) ])
alloc_at t none h = (refl, λ f l. ground (arith, h f l))
alloc_at t (some i) h = (h.0, ground (arith, h.1), refl)

filealloc-Allocs : (t : ℕ → File) → Allocs t (filealloc t)
unfolding filealloc
filealloc-Allocs t =
    alloc_at t (find_first (λ i. (t i).ref == 0) nfile)
      (find_first-Finds (λ i. (t i).ref == 0) nfile)

filedup_lem :
    (t : ℕ → File) (f : ℕ)
    → 0 < (t f).ref
    → filedup t f ≡ some (update t f (record (t f) { ref = (t f).ref + 1 }))
unfolding filedup
filedup_lem t f h = ground (arith, h)

fileclose_last :
    (t : ℕ → File) (f : ℕ)
    → (t f).ref ≡ 1
    → fileclose t f
      ≡ some (update t f (record (t f) { ref = 0; type = fd_none }), teardown (t f).type (t f))
unfolding fileclose
fileclose_last t f h = ground (arith, h)

fileclose_more :
    (t : ℕ → File) (f : ℕ)
    → 1 < (t f).ref
    → fileclose t f ≡ some (update t f (record (t f) { ref = (t f).ref - 1 }), [])
unfolding fileclose
fileclose_more t f h = ground (arith, h)

update-ref :
    (t : ℕ → File) (held : ℕ → ℕ) (f n : ℕ) (file : File)
    → ((g : ℕ) → (t g).ref ≡ held g)
    → file.ref ≡ n
    → (g : ℕ) → (update t f file g).ref ≡ update held f n g
update-ref t held f n file h e g = elim (ℕ_discrete f g) [
  | yes same ↦ ground (arith, same, e)
  | no other ↦ ground (arith, other, h g)
]

updated-Counts :
    (s t : Holders) (f n : ℕ) (file : File)
    → Counts s
    → file.ref ≡ n
    → t.table ≡ update s.table f file
    → t.held ≡ update s.held f n
    → Counts t
updated-Counts s t f n file c e et eh = rw (et, eh) (update-ref s.table s.held f n file c e)

Step-Counts : {s t : Holders} → Step s t → Counts s → Counts t
Step-Counts {s} {t} (allocs f e eh) c =
    let (below, free, et) : Allocs s.table (t.table, some f) =
      subst (Allocs s.table) e (filealloc-Allocs s.table) in
    updated-Counts s t f (s.held f + 1) (record (s.table f) { ref = 1 }) c
      (omega (arith, free, c f)) et eh
Step-Counts {s} {t} (dups f h e eh) c =
    let now = filedup_lem s.table f (ground (arith, h, c f)) in
    updated-Counts s t f (s.held f + 1) (record (s.table f) { ref = (s.table f).ref + 1 }) c
      (omega (arith, c f)) (cc) eh
Step-Counts {s} {t} (closes f effects h e eh) c = elim (ℕ_discrete (s.held f) 1) [
  | yes one ↦
      let now = fileclose_last s.table f (c f ∙ one) in
      updated-Counts s t f (s.held f - 1) (record (s.table f) { ref = 0; type = fd_none }) c
        (omega (arith, one)) (cc) eh
  | no more ↦
      let now = fileclose_more s.table f (omega (arith, h, c f, more)) in
      updated-Counts s t f (s.held f - 1) (record (s.table f) { ref = (s.table f).ref - 1 }) c
        (omega (arith, c f)) (cc) eh
]

Reach-Counts : {start s : Holders} → Counts start → Reach start s → Counts s
Reach-Counts c here = c
Reach-Counts c (next r step) = Step-Counts step (Reach-Counts c r)

-- What `filealloc` gives: a file that nobody refers to, with the others as they were, or none when
-- every file of the table is referred to.
abbrev pub Fresh : Holders → (ℕ → File) × Option ℕ → Type 0
Fresh s (u, some f) =
    (f < nfile) × (s.held f ≡ 0) × ((u f).ref ≡ 1) × ((g : ℕ) → f ≢ g → u g ≡ s.table g)
Fresh s (u, none) = (f : ℕ) → f < nfile → 0 < s.held f

Allocs-Fresh : (s : Holders) (r : (ℕ → File) × Option ℕ) → Counts s → Allocs s.table r → Fresh s r
Allocs-Fresh s (u, some f) c (below, free, e) =
    rw e (below, sym (c f) ∙ free, ground arith, λ g ne. ground (arith, ne))
Allocs-Fresh s (u, none) c (e, all) = λ f l. omega (arith, all f l, c f)

-- From a table whose counts are the numbers of references, after any `filealloc`s, and `filedup`s and
-- `fileclose`s by those who hold a reference, `filealloc` gives a file of the table that nobody refers
-- to, with the count 1, and leaves the others as they were; it gives none only when every file of the
-- table is referred to.
pub filealloc-Fresh :
    {start s : Holders} → Counts start → Reach start s → Fresh s (filealloc s.table)
filealloc-Fresh {start} {s} c r =
    Allocs-Fresh s (filealloc s.table) (Reach-Counts c r) (filealloc-Allocs s.table)

-- What the file stands for is given up: the end of the pipe that was open for it, or the inode, in a
-- transaction of its own.
pub record GivesUp (file : File) (effects : List Effect) : Type 0 where
  pub pipe : file.type ≡ fd_pipe → effects ≡ pipecloses file.pipe file.writable ∷ []
  pub inode : file.type ≡ fd_inode → effects ≡ begins ∷ iputs file.ip ∷ ends ∷ []
  pub nothing : file.type ≡ fd_none → effects ≡ []

teardown-GivesUp :
    (type : FdType) (file : File) → file.type ≡ type → GivesUp file (teardown type file)
unfolding teardown
teardown-GivesUp fd_none file e = record {
  pipe = λ p. cc (e, p);
  inode = λ p. cc (e, p);
  nothing = λ p. refl;
}
teardown-GivesUp fd_pipe file e = record {
  pipe = λ p. refl;
  inode = λ p. cc (e, p);
  nothing = λ p. cc (e, p);
}
teardown-GivesUp fd_inode file e = record {
  pipe = λ p. cc (e, p);
  inode = λ p. refl;
  nothing = λ p. cc (e, p);
}

-- What `fileclose` on `f` does: it returns, and what the file stands for is given up exactly when
-- this was the last reference; the file is free again then.
abbrev pub ClosesLast : Holders → ℕ → Type 0
ClosesLast s f =
    (u : ℕ → File) × (effects : List Effect) × (fileclose s.table f ≡ some (u, effects))
    × ((u f).ref ≡ s.held f - 1)
    × ((g : ℕ) → f ≢ g → u g ≡ s.table g)
    × (((s.held f ≡ 1) × ((u f).type ≡ fd_none) × GivesUp (s.table f) effects)
        ⊎ ((s.held f ≢ 1) × (effects ≡ []) × ((u f).type ≡ (s.table f).type)))

-- From a table whose counts are the numbers of references, after any `filealloc`s, and `filedup`s and
-- `fileclose`s by those who hold a reference, a `fileclose` by one that holds a reference returns,
-- without a panic: it takes one from the count and leaves the other files as they were. When the
-- reference was the last one, the file's type becomes FD_NONE, and the call closes the file's end of
-- its pipe, or puts its inode between `begin_op` and `end_op`, by the type that the file had; else the
-- type stays and nothing is given up.
pub fileclose-ClosesLast :
    {start s : Holders} (f : ℕ) → Counts start → Reach start s → 0 < s.held f → ClosesLast s f
fileclose-ClosesLast {start} {s} f c r h =
    let count = Reach-Counts c r f in
    elim (ℕ_discrete (s.held f) 1) [
      | yes one ↦ (
        update s.table f (record (s.table f) { ref = 0; type = fd_none }),
        teardown (s.table f).type (s.table f),
        fileclose_last s.table f (count ∙ one),
        ground (arith, one),
        λ g ne. ground (arith, ne),
        inl (one, ground arith, teardown-GivesUp (s.table f).type (s.table f) refl),
      )
      | no more ↦ (
        update s.table f (record (s.table f) { ref = (s.table f).ref - 1 }),
        [],
        fileclose_more s.table f (omega (arith, h, count, more)),
        ground (arith, count),
        λ g ne. ground (arith, ne),
        inr (more, refl, ground arith),
      )
    ]
