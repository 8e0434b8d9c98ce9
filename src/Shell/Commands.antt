-- ===== src/Shell/Commands.antt =====
-- The loops of the parser on printed text: redirections, arguments, and `&`s.
use cs537_sp2021_dis.Base.{
  ℕ, zero, suc, ◌+◌, ◌<◌, ◌≡◌, refl, ◌∙◌, ap, ◌⊎◌, inl, inr, true, false, List, [], ◌∷◌, length,
  arith, All, leb, ◌==◌, Bool-cases,
}
use cs537_sp2021_dis.Shell.{
  Cmd, back, Result, parsed, bind, gettoken, redirect, parseredirs, add_arg, parseargs, parsebacks,
}
use cs537_sp2021_dis.Shell.Print.{
  Redir, Item, arg, redirect_to, print_word, print_symbol, print_redir, print_redirs, print_items,
  print_backs, wrap, run_items, run_backs, IsWord, IsRedir, IsItem, args,
}
use cs537_sp2021_dis.Shell.Lex.{
  IsReady, head_in, peek-IsReady, word-IsReady, word-head, gettoken-word, symbol-IsReady,
  gettoken-symbol, gettoken-append, gettoken-nil,
}

-- The characters that the loops look for.
abbrev pub redirs : List ℕ
redirs = b'<' ∷ b'>' ∷ []

abbrev pub stops : List ℕ
stops = b'|' ∷ b')' ∷ b'&' ∷ b';' ∷ []

redir-IsReady : (r : Redir) (k : List ℕ) → IsRedir r → IsReady (print_redir r k)
redir-IsReady r k h = elim (Bool-cases (r.kind == b'+')) [
  | inl e ↦ rw e (symbol-IsReady b'>' (print_symbol b'>' (print_word r.file k)) refl)
  | inr e ↦ rw e (symbol-IsReady r.kind (32 ∷ print_word r.file k) (ground (arith, e, h.0)))
]

redir-head : (r : Redir) (k : List ℕ) → IsRedir r → head_in redirs (print_redir r k) ≡ true
redir-head r k h = elim (Bool-cases (r.kind == b'+')) [
  | inl e ↦ rw e refl
  | inr e ↦ rw e (ground (arith, e, h.0))
]

pub redir-paren :
    (r : Redir) (k : List ℕ) → IsRedir r → head_in (b'(' ∷ []) (print_redir r k) ≡ false
redir-paren r k h = elim (Bool-cases (r.kind == b'+')) [
  | inl e ↦ rw e refl
  | inr e ↦ rw e (ground (arith, e, h.0))
]

redir-token :
    (r : Redir) (k : List ℕ)
    → IsRedir r
    → gettoken (print_redir r k) ≡ (r.kind, [], print_word r.file k)
redir-token r k h = elim (Bool-cases (r.kind == b'+')) [
  | inl e ↦
      let plus : b'+' ≡ r.kind = ground (arith, e) in
      rw e (
        gettoken-append (print_word r.file k) (word-IsReady r.file k h.1)
        ∙ ap (λ (c : ℕ). (c, [], print_word r.file k)) plus)
  | inr e ↦ rw e (
      gettoken-symbol r.kind (print_word r.file k) (ground (arith, e, h.0))
        (word-IsReady r.file k h.1))
]

-- One redirection is read.
parseredirs-redir :
    (fuel : ℕ) (c : Cmd) (r : Redir) (k : List ℕ)
    → IsRedir r
    → IsReady k
    → parseredirs (suc fuel) c (print_redir r k) ≡ parseredirs fuel (redirect c r.kind r.file) k
unfolding parseredirs
parseredirs-redir fuel c r k h ready =
    rw
      (
        peek-IsReady redirs (print_redir r k) (redir-IsReady r k h),
        redir-head r k h,
        redir-token r k h,
        gettoken-word r.file k h.1 ready,
      )
      refl

-- No redirection follows.
parseredirs-stop :
    (fuel : ℕ) (c : Cmd) (k : List ℕ)
    → IsReady k
    → head_in redirs k ≡ false
    → parseredirs (suc fuel) c k ≡ parsed c k
unfolding parseredirs
parseredirs-stop fuel c k ready other = rw (peek-IsReady redirs k ready, other) refl

pub redirs-IsReady :
    (rs : List Redir) (k : List ℕ) → All IsRedir rs → IsReady k → IsReady (print_redirs rs k)
redirs-IsReady [] k h ready = ready
redirs-IsReady (r ∷ rs) k h ready = redir-IsReady r (print_redirs rs k) h.0

pub parseredirs-print :
    (fuel : ℕ) (c : Cmd) (rs : List Redir) (k : List ℕ)
    → All IsRedir rs
    → IsReady k
    → head_in redirs k ≡ false
    → length rs < fuel
    → parseredirs fuel c (print_redirs rs k) ≡ parsed (wrap c rs) k
parseredirs-print zero c rs k h ready other enough = absurd (omega (arith, enough))
parseredirs-print (suc fuel) c [] k h ready other enough = parseredirs-stop fuel c k ready other
parseredirs-print (suc fuel) c (r ∷ rs) k h ready other enough =
    parseredirs-redir fuel c r (print_redirs rs k) h.0 (redirs-IsReady rs k h.1 ready)
    ∙ parseredirs-print fuel (redirect c r.kind r.file) rs k h.1 ready other (omega (arith, enough))

pub items-IsReady :
    (is : List Item) (k : List ℕ) → All IsItem is → IsReady k → IsReady (print_items is k)
items-IsReady [] k h ready = ready
items-IsReady (arg w ∷ is) k h ready = word-IsReady w (print_items is k) h.0
items-IsReady (redirect_to r ∷ is) k h ready = redir-IsReady r (print_items is k) h.0

-- What `parseexec` does from a redirection or an argument on.
abbrev pub arguments : ℕ → ℕ → ℕ → Cmd → List ℕ → Result Cmd
arguments f g argc c s = bind (parseredirs f c s) λ c' s'. parseargs g argc c' s'

parseargs-end :
    (fuel argc : ℕ) (c : Cmd) (k : List ℕ)
    → IsReady k
    → (head_in stops k ≡ true) ⊎ (k ≡ [])
    → parseargs (suc fuel) argc c k ≡ parsed c k
unfolding parseargs
parseargs-end fuel argc c [] ready ends = rw (peek-IsReady stops [] ready, gettoken-nil) refl
parseargs-end fuel argc c (d ∷ k) ready (inl e) = rw (peek-IsReady stops (d ∷ k) ready, e) refl
parseargs-end fuel argc c (d ∷ k) ready (inr e) = cc

parseargs-word :
    (fuel argc : ℕ) (c : Cmd) (w k : List ℕ)
    → IsWord w
    → IsReady k
    → argc + 1 < 10
    → parseargs (suc fuel) argc c (print_word w k) ≡ arguments fuel fuel (argc + 1) (add_arg c w) k
unfolding parseargs
parseargs-word fuel argc c w k h ready few =
    let no_stop : head_in stops (print_word w k) ≡ false =
      word-head stops w k h (λ d ok. ground (arith, ok)) in
    let fits : leb 10 (argc + 1) ≡ false = ground (arith, few) in
    rw
      (
        peek-IsReady stops (print_word w k) (word-IsReady w k h),
        no_stop,
        gettoken-word w k h ready,
        fits,
      )
      refl

end-head : (k : List ℕ) → (head_in stops k ≡ true) ⊎ (k ≡ []) → head_in redirs k ≡ false
end-head [] ends = refl
end-head (d ∷ k) (inl e) = ground (arith, e)
end-head (d ∷ k) (inr e) = cc

pub arguments-print :
    (is : List Item) (f g argc : ℕ) (c : Cmd) (k : List ℕ)
    → All IsItem is
    → IsReady k
    → (head_in stops k ≡ true) ⊎ (k ≡ [])
    → length is < f
    → length is < g
    → argc + args is < 10
    → arguments f g argc c (print_items is k) ≡ parsed (run_items c is) k
arguments-print is zero g argc c k h ready ends ef eg few = absurd (omega (arith, ef))
arguments-print is (suc f) zero argc c k h ready ends ef eg few = absurd (omega (arith, eg))
arguments-print [] (suc f) (suc g) argc c k h ready ends ef eg few =
    rw (parseredirs-stop f c k ready (end-head k ends)) (parseargs-end g argc c k ready ends)
arguments-print (redirect_to r ∷ is) (suc f) (suc g) argc c k h ready ends ef eg few =
    rw (parseredirs-redir f c r (print_items is k) h.0 (items-IsReady is k h.1 ready)) (
      arguments-print is f (suc g) argc (redirect c r.kind r.file) k h.1 ready ends
        (omega (arith, ef)) (omega (arith, eg)) few)
arguments-print (arg w ∷ is) (suc f) (suc g) argc c k h ready ends ef eg few =
    let next = print_items is k in
    let no_redir : head_in redirs (print_word w next) ≡ false =
      word-head redirs w next h.0 (λ d ok. ground (arith, ok)) in
    rw
      (
        parseredirs-stop f c (print_word w next) (word-IsReady w next h.0) no_redir,
        parseargs-word g argc c w next h.0 (items-IsReady is k h.1 ready) (omega (arith, few)),
      )
      (arguments-print is g g (argc + 1) (add_arg c w) k h.1 ready ends (omega (arith, eg))
        (omega (arith, eg)) (omega (arith, few)))

pub backs-IsReady : (n : ℕ) (k : List ℕ) → IsReady k → IsReady (print_backs n k)
backs-IsReady zero k ready = ready
backs-IsReady (suc n) k ready = symbol-IsReady b'&' (32 ∷ print_backs n k) refl

parsebacks-stop :
    (fuel : ℕ) (c : Cmd) (k : List ℕ)
    → IsReady k
    → head_in (b'&' ∷ []) k ≡ false
    → parsebacks (suc fuel) c k ≡ parsed c k
unfolding parsebacks
parsebacks-stop fuel c k ready other = rw (peek-IsReady (b'&' ∷ []) k ready, other) refl

parsebacks-back :
    (fuel : ℕ) (c : Cmd) (k : List ℕ)
    → IsReady k
    → parsebacks (suc fuel) c (print_symbol b'&' k) ≡ parsebacks fuel (back c) k
unfolding parsebacks
parsebacks-back fuel c k ready =
    rw
      (
        peek-IsReady (b'&' ∷ []) (print_symbol b'&' k) (symbol-IsReady b'&' (32 ∷ k) refl),
        gettoken-symbol b'&' k refl ready,
      )
      refl

pub parsebacks-print :
    (fuel : ℕ) (c : Cmd) (n : ℕ) (k : List ℕ)
    → IsReady k
    → head_in (b'&' ∷ []) k ≡ false
    → n < fuel
    → parsebacks fuel c (print_backs n k) ≡ parsed (run_backs c n) k
parsebacks-print zero c n k ready other enough = absurd (omega (arith, enough))
parsebacks-print (suc fuel) c zero k ready other enough = parsebacks-stop fuel c k ready other
parsebacks-print (suc fuel) c (suc n) k ready other enough =
    parsebacks-back fuel c (print_backs n k) (backs-IsReady n k ready)
    ∙ parsebacks-print fuel (back c) n k ready other (omega (arith, enough))
