-- ===== src/Shell/Means.antt =====
-- The command that the parser builds step by step is the one that the line means.
use mathlib.Core.List.{append-nil}
use cs537_sp2021_dis.Base.{
  ℕ, zero, suc, ◌≡◌, refl, ◌∙◌, sym, ap, List, [], ◌∷◌, ◌++◌, inl, inr, Bool-cases, ◌==◌,
}
use cs537_sp2021_dis.Shell.{Cmd, exec, pipe, list, back, redirect, add_arg}
use cs537_sp2021_dis.Shell.Print.{
  Redir, Item, arg, redirect_to, Line, Pipe, Exec, last, seq, single, piped, simple, block, wrap,
  run_items, run_backs, line_cmd, pipe_cmd, exec_cmd, opened, around, words, files, behind,
  line_means, pipe_means, exec_means,
}

redirect-opened : (c : Cmd) (r : Redir) → redirect c r.kind r.file ≡ opened c r
unfolding redirect
redirect-opened c r = elim (Bool-cases (r.kind == b'<')) [ inl e ↦ rw e refl | inr e ↦ rw e refl ]

add_arg-opened :
    (c : Cmd) (r : Redir) (w : List ℕ) → add_arg (opened c r) w ≡ opened (add_arg c w) r
unfolding add_arg
add_arg-opened c r w = elim (Bool-cases (r.kind == b'<')) [ inl e ↦ rw e refl | inr e ↦ rw e refl ]

add_arg-around :
    (c : Cmd) (rs : List Redir) (w : List ℕ) → add_arg (around c rs) w ≡ around (add_arg c w) rs
add_arg-around c [] w = refl
add_arg-around c (r ∷ rs) w =
    add_arg-around (opened c r) rs w ∙ ap (λ x. around x rs) (add_arg-opened c r w)

around-last :
    (c : Cmd) (rs : List Redir) (r : Redir) → opened (around c rs) r ≡ around c (rs ++ r ∷ [])
around-last c [] r = refl
around-last c (q ∷ rs) r = around-last (opened c q) rs r

append_one {ℓ} :
    {A : Type ℓ} (xs : List A) (x : A) (ys : List A) → (xs ++ x ∷ []) ++ ys ≡ xs ++ x ∷ ys
append_one [] x ys = refl
append_one (z ∷ xs) x ys = ap (λ t. z ∷ t) (append_one xs x ys)

-- The parser has read the arguments `ws` and the redirections `rs`.
run_items-around :
    (is : List Item) (ws : List (List ℕ)) (rs : List Redir)
    → run_items (around (exec ws) rs) is ≡ around (exec (ws ++ words is)) (rs ++ files is)
unfolding add_arg
run_items-around [] ws rs =
    ap (λ x. around (exec x) rs) (sym (append-nil ws))
    ∙ ap (around (exec (ws ++ []))) (sym (append-nil rs))
run_items-around (arg w ∷ is) ws rs =
    ap (λ c. run_items c is) (add_arg-around (exec ws) rs w)
    ∙ run_items-around is (ws ++ w ∷ []) rs
    ∙ ap (λ x. around (exec x) (rs ++ files is)) (append_one ws w (words is))
run_items-around (redirect_to r ∷ is) ws rs =
    ap (λ c. run_items c is) (redirect-opened (around (exec ws) rs) r ∙ around-last (exec ws) rs r)
    ∙ run_items-around is ws (rs ++ r ∷ [])
    ∙ ap (around (exec (ws ++ words is))) (append_one rs r (files is))

wrap-around : (c : Cmd) (rs : List Redir) → wrap c rs ≡ around c rs
wrap-around c [] = refl
wrap-around c (r ∷ rs) = ap (λ x. wrap x rs) (redirect-opened c r) ∙ wrap-around (opened c r) rs

behind-back : (c : Cmd) (n : ℕ) → behind (back c) n ≡ back (behind c n)
behind-back c zero = refl
behind-back c (suc n) = ap back (behind-back c n)

run_backs-behind : (c : Cmd) (n : ℕ) → run_backs c n ≡ behind c n
run_backs-behind c zero = refl
run_backs-behind c (suc n) = run_backs-behind (back c) n ∙ behind-back c n

mutual
  unfolding line_cmd pipe_cmd exec_cmd line_means pipe_means exec_means

  pub line_cmd_means : (l : Line) → line_cmd l ≡ line_means l
  line_cmd_means (last p n) =
      run_backs-behind (pipe_cmd p) n ∙ ap (λ c. behind c n) (pipe_cmd_means p)
  line_cmd_means (seq p n l) =
      ap (λ c. list c (line_cmd l))
        (run_backs-behind (pipe_cmd p) n ∙ ap (λ c. behind c n) (pipe_cmd_means p))
      ∙ ap (list (behind (pipe_means p) n)) (line_cmd_means l)

  pipe_cmd_means : (p : Pipe) → pipe_cmd p ≡ pipe_means p
  pipe_cmd_means (single e) = exec_cmd_means e
  pipe_cmd_means (piped e p) =
      ap (λ c. pipe c (pipe_cmd p)) (exec_cmd_means e) ∙ ap (pipe (exec_means e)) (pipe_cmd_means p)

  exec_cmd_means : (e : Exec) → exec_cmd e ≡ exec_means e
  exec_cmd_means (simple is) = run_items-around is [] []
  exec_cmd_means (block l rs) =
      wrap-around (line_cmd l) rs ∙ ap (λ c. around c rs) (line_cmd_means l)
