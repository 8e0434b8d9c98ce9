-- ===== src/Shell/Steps.antt =====
-- The steps of the parser on printed text, by what its parts give.
use cs537_sp2021_dis.Base.{
  ℕ, zero, suc, ◌+◌, ◌≡◌, refl, ap, ◌⊎◌, inl, inr, true, false, List, [], ◌∷◌, length, arith, All,
  is_in, ◌==◌, Bool-cases,
}
use cs537_sp2021_dis.Shell.{
  Cmd, exec, pipe, list, parsed, parseredirs, parsebacks, parseline, parsepipe, parseblock,
  parseexec,
}
use cs537_sp2021_dis.Shell.Print.{
  Item, arg, redirect_to, Line, Pipe, Exec, last, seq, single, piped, simple, block, print_symbol,
  print_redirs, print_items, print_backs, print_line, print_pipe, print_exec, IsItem, IsLine,
  IsPipe, IsExec,
}
use cs537_sp2021_dis.Shell.Lex.{
  IsReady, head_in, peek-IsReady, word-head, symbol-IsReady, gettoken-symbol,
}
use cs537_sp2021_dis.Shell.Commands.{stops, items-IsReady, arguments, backs-IsReady, redir-paren}

-- What may follow a line, a pipe, and a command.
abbrev pub Ends : List ℕ → List ℕ → Type 0
Ends toks k = IsReady k × ((head_in toks k ≡ true) ⊎ (k ≡ []))

abbrev pub line_ends : List ℕ
line_ends = b')' ∷ []

abbrev pub pipe_ends : List ℕ
pipe_ends = b')' ∷ b'&' ∷ b';' ∷ []

-- The fuel that a line takes.
unfoldable mutual
  pub size_line : Line → ℕ
  size_line (last p n) = 2 + size_pipe p + n
  size_line (seq p n l) = 2 + size_pipe p + n + size_line l

  pub size_pipe : Pipe → ℕ
  size_pipe (single e) = 1 + size_exec e
  size_pipe (piped e p) = 1 + size_exec e + size_pipe p

  pub size_exec : Exec → ℕ
  size_exec (simple is) = 3 + length is
  size_exec (block l rs) = 3 + size_line l + length rs

pub Ends-other :
    (toks k : List ℕ) (c : ℕ) → Ends toks k → is_in c toks ≡ false → head_in (c ∷ []) k ≡ false
Ends-other toks [] c (ready, ends) other = refl
Ends-other toks (d ∷ k) c (ready, inr e) other = cc
Ends-other toks (d ∷ k) c (ready, inl e) other = elim (Bool-cases (d == c)) [
  | inl same ↦ let eq : d ≡ c = ground (arith, same) in cc (ap (λ x. is_in x toks) eq, e, other)
  | inr ne ↦ rw ne refl
]

pub line-pipe : (k : List ℕ) → Ends line_ends k → Ends pipe_ends k
line-pipe [] h = h
line-pipe (d ∷ k) (ready, inl e) = (ready, inl (ground (arith, e)))
line-pipe (d ∷ k) (ready, inr e) = cc

pub pipe-exec : (k : List ℕ) → Ends pipe_ends k → Ends stops k
pipe-exec [] h = h
pipe-exec (d ∷ k) (ready, inl e) = (ready, inl (ground (arith, e)))
pipe-exec (d ∷ k) (ready, inr e) = cc

-- Before `&`s, a `;`, or the end.
pub backs-Ends : (n : ℕ) (k : List ℕ) → Ends pipe_ends k → Ends pipe_ends (print_backs n k)
backs-Ends zero k h = h
backs-Ends (suc n) k h = (symbol-IsReady b'&' (32 ∷ print_backs n k) refl, inl refl)

pub symbol-Ends :
    (toks : List ℕ) (c : ℕ) (k : List ℕ) → IsReady (c ∷ k) → is_in c toks ≡ true → Ends toks (c ∷ k)
symbol-Ends toks c k ready h = (ready, inl h)

-- Printed text begins with no white space.
mutual
  unfolding print_line print_pipe print_exec IsLine IsPipe IsExec

  pub line-IsReady : (l : Line) (k : List ℕ) → IsLine l → IsReady k → IsReady (print_line l k)
  line-IsReady (last p n) k h ready = pipe-IsReady p (print_backs n k) h (backs-IsReady n k ready)
  line-IsReady (seq p n l) k h ready =
      pipe-IsReady p (print_backs n (print_symbol b';' (print_line l k))) h.0 (
        backs-IsReady n (print_symbol b';' (print_line l k))
          (symbol-IsReady b';' (32 ∷ print_line l k) refl))

  pub pipe-IsReady : (p : Pipe) (k : List ℕ) → IsPipe p → IsReady k → IsReady (print_pipe p k)
  pipe-IsReady (single e) k h ready = exec-IsReady e k h ready
  pipe-IsReady (piped e p) k h ready =
      exec-IsReady e (print_symbol b'|' (print_pipe p k)) h.0
        (symbol-IsReady b'|' (32 ∷ print_pipe p k) refl)

  pub exec-IsReady : (e : Exec) (k : List ℕ) → IsExec e → IsReady k → IsReady (print_exec e k)
  exec-IsReady (simple is) k h ready = items-IsReady is k h.0 ready
  exec-IsReady (block l rs) k h ready =
      symbol-IsReady b'(' (32 ∷ print_line l (print_symbol b')' (print_redirs rs k))) refl

-- A simple command does not begin with `(`.
pub items-paren :
    (is : List Item) (k : List ℕ)
    → All IsItem is
    → head_in (b'(' ∷ []) k ≡ false
    → head_in (b'(' ∷ []) (print_items is k) ≡ false
items-paren [] k h other = other
items-paren (arg w ∷ is) k h other =
    word-head (b'(' ∷ []) w (print_items is k) h.0 (λ c ok. ground (arith, ok))
items-paren (redirect_to r ∷ is) k h other = redir-paren r (print_items is k) h.0

-- The steps of the parser, by what its parts give.
pub parseexec-simple :
    (fuel : ℕ) (s : List ℕ)
    → IsReady s
    → head_in (b'(' ∷ []) s ≡ false
    → parseexec (suc fuel) s ≡ arguments fuel fuel 0 (exec []) s
unfolding parseexec
parseexec-simple fuel s ready other = rw (peek-IsReady (b'(' ∷ []) s ready, other) refl

pub parseexec-block :
    (fuel : ℕ) (s : List ℕ)
    → IsReady s
    → head_in (b'(' ∷ []) s ≡ true
    → parseexec (suc fuel) s ≡ parseblock fuel s
unfolding parseexec
parseexec-block fuel s ready found = rw (peek-IsReady (b'(' ∷ []) s ready, found) refl

pub parseblock-step :
    (fuel : ℕ) (s s1 : List ℕ) (c : Cmd)
    → IsReady s
    → IsReady s1
    → parseline fuel s ≡ parsed c (print_symbol b')' s1)
    → parseblock (suc fuel) (print_symbol b'(' s) ≡ parseredirs fuel c s1
unfolding parseblock
parseblock-step fuel s s1 c ready ready1 e =
    rw
      (
        peek-IsReady (b'(' ∷ []) (print_symbol b'(' s) (symbol-IsReady b'(' (32 ∷ s) refl),
        gettoken-symbol b'(' s refl ready,
        e,
        peek-IsReady (b')' ∷ []) (print_symbol b')' s1) (symbol-IsReady b')' (32 ∷ s1) refl),
        gettoken-symbol b')' s1 refl ready1,
      )
      refl

pub parsepipe-last :
    (fuel : ℕ) (s k : List ℕ) (c : Cmd)
    → parseexec fuel s ≡ parsed c k
    → IsReady k
    → head_in (b'|' ∷ []) k ≡ false
    → parsepipe (suc fuel) s ≡ parsed c k
unfolding parsepipe
parsepipe-last fuel s k c e ready other = rw (e, peek-IsReady (b'|' ∷ []) k ready, other) refl

pub parsepipe-more :
    (fuel : ℕ) (s s1 k : List ℕ) (c d : Cmd)
    → parseexec fuel s ≡ parsed c (print_symbol b'|' s1)
    → IsReady s1
    → parsepipe fuel s1 ≡ parsed d k
    → parsepipe (suc fuel) s ≡ parsed (pipe c d) k
unfolding parsepipe
parsepipe-more fuel s s1 k c d e ready more =
    rw
      (
        e,
        peek-IsReady (b'|' ∷ []) (print_symbol b'|' s1) (symbol-IsReady b'|' (32 ∷ s1) refl),
        gettoken-symbol b'|' s1 refl ready,
        more,
      )
      refl

pub parseline-last :
    (fuel : ℕ) (s s1 k : List ℕ) (c d : Cmd)
    → parsepipe fuel s ≡ parsed c s1
    → parsebacks fuel c s1 ≡ parsed d k
    → IsReady k
    → head_in (b';' ∷ []) k ≡ false
    → parseline (suc fuel) s ≡ parsed d k
unfolding parseline
parseline-last fuel s s1 k c d e1 e2 ready other =
    rw (e1, e2, peek-IsReady (b';' ∷ []) k ready, other) refl

pub parseline-more :
    (fuel : ℕ) (s s1 s2 k : List ℕ) (c d right : Cmd)
    → parsepipe fuel s ≡ parsed c s1
    → parsebacks fuel c s1 ≡ parsed d (print_symbol b';' s2)
    → IsReady s2
    → parseline fuel s2 ≡ parsed right k
    → parseline (suc fuel) s ≡ parsed (list d right) k
unfolding parseline
parseline-more fuel s s1 s2 k c d right e1 e2 ready more =
    rw
      (
        e1,
        e2,
        peek-IsReady (b';' ∷ []) (print_symbol b';' s2) (symbol-IsReady b';' (32 ∷ s2) refl),
        gettoken-symbol b';' s2 refl ready,
        more,
      )
      refl
