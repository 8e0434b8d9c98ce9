-- ===== src/Shell/RoundTrip.antt =====
-- The parser reads every command line as the command that it means.
use cs537_sp2021_dis.Base.{
  ℕ, zero, suc, ◌+◌, ◌*◌, ◌≤◌, ◌≡◌, refl, ap, ◌∙◌, inl, inr, false, List, [], ◌∷◌, ◌++◌, length,
  length-append, arith, ◌==◌, Bool-cases,
}
use cs537_sp2021_dis.Shell.{Cmd, exec, parsed, skip, parseline, parsepipe, parseexec, parsecmd}
use cs537_sp2021_dis.Shell.Print.{
  Redir, Item, arg, redirect_to, Line, Pipe, Exec, last, seq, single, piped, simple, block,
  print_symbol, print_redir, print_redirs, print_items, print_backs, print_line, print_pipe,
  print_exec, run_backs, line_means, line_cmd, pipe_cmd, exec_cmd, IsLine, IsPipe, IsExec,
}
use cs537_sp2021_dis.Shell.Lex.{head_in, skip-nil, symbol-IsReady}
use cs537_sp2021_dis.Shell.Commands.{
  redirs, stops, parseredirs-print, items-IsReady, arguments-print, parsebacks-print,
  redirs-IsReady,
}
use cs537_sp2021_dis.Shell.Means.{line_cmd_means}
use cs537_sp2021_dis.Shell.Steps.{
  Ends, line_ends, pipe_ends, size_line, size_pipe, size_exec, line-pipe, pipe-exec, Ends-other,
  backs-Ends, items-paren, parseexec-simple, parseexec-block, parseblock-step, parsepipe-last,
  parsepipe-more, parseline-last, parseline-more, line-IsReady, pipe-IsReady,
}

-- No command is read without fuel.
no_fuel : (l : Line) → size_line l ≤ 0 → ⊥
unfolding size_line
no_fuel (last p n) h = omega (arith, h)
no_fuel (seq p n l) h = omega (arith, h)

no_fuel_pipe : (p : Pipe) → size_pipe p ≤ 0 → ⊥
unfolding size_pipe
no_fuel_pipe (single e) h = omega (arith, h)
no_fuel_pipe (piped e p) h = omega (arith, h)

no_fuel_exec : (e : Exec) → size_exec e ≤ 0 → ⊥
unfolding size_exec
no_fuel_exec (simple is) h = omega (arith, h)
no_fuel_exec (block l rs) h = omega (arith, h)

no_redir : (k : List ℕ) → Ends stops k → head_in redirs k ≡ false
no_redir [] h = refl
no_redir (d ∷ k) (ready, inl e) = ground (arith, e)
no_redir (d ∷ k) (ready, inr e) = cc

mutual
  unfolding print_line print_pipe print_exec IsLine IsPipe IsExec line_cmd pipe_cmd exec_cmd
      size_line size_pipe size_exec

  parseline-print :
      (l : Line) (fuel : ℕ) (k : List ℕ)
      → IsLine l
      → Ends line_ends k
      → size_line l ≤ fuel
      → parseline fuel (print_line l k) ≡ parsed (line_cmd l) k
  parseline-print l zero k h ends enough = absurd (no_fuel l enough)
  parseline-print (last p n) (suc fuel) k h ends enough =
      let ends1 = backs-Ends n k (line-pipe k ends) in
      parseline-last fuel (print_pipe p (print_backs n k)) (print_backs n k) k (pipe_cmd p)
        (run_backs (pipe_cmd p) n)
        (parsepipe-print p fuel (print_backs n k) h ends1 (omega (arith, enough)))
        (parsebacks-print fuel (pipe_cmd p) n k ends.0 (Ends-other line_ends k b'&' ends refl)
          (omega (arith, enough)))
        ends.0 (Ends-other line_ends k b';' ends refl)
  parseline-print (seq p n l) (suc fuel) k h ends enough =
      let rest = print_line l k in
      let ready = line-IsReady l k h.1 ends.0 in
      let semi = print_symbol b';' rest in
      let semi_ready = symbol-IsReady b';' (32 ∷ rest) refl in
      parseline-more fuel (print_pipe p (print_backs n semi)) (print_backs n semi) rest k
        (pipe_cmd p) (run_backs (pipe_cmd p) n) (line_cmd l)
        (parsepipe-print p fuel (print_backs n semi) h.0 (backs-Ends n semi (semi_ready, inl refl))
          (omega (arith, enough)))
        (parsebacks-print fuel (pipe_cmd p) n semi semi_ready refl (omega (arith, enough))) ready
        (parseline-print l fuel k h.1 ends (omega (arith, enough)))

  parsepipe-print :
      (p : Pipe) (fuel : ℕ) (k : List ℕ)
      → IsPipe p
      → Ends pipe_ends k
      → size_pipe p ≤ fuel
      → parsepipe fuel (print_pipe p k) ≡ parsed (pipe_cmd p) k
  parsepipe-print p zero k h ends enough = absurd (no_fuel_pipe p enough)
  parsepipe-print (single e) (suc fuel) k h ends enough =
      parsepipe-last fuel (print_exec e k) k (exec_cmd e)
        (parseexec-print e fuel k h (pipe-exec k ends) (omega (arith, enough))) ends.0
        (Ends-other pipe_ends k b'|' ends refl)
  parsepipe-print (piped e p) (suc fuel) k h ends enough =
      let rest = print_pipe p k in
      let bar = print_symbol b'|' rest in
      parsepipe-more fuel (print_exec e bar) rest k (exec_cmd e) (pipe_cmd p)
        (parseexec-print e fuel bar h.0 (symbol-IsReady b'|' (32 ∷ rest) refl, inl refl)
          (omega (arith, enough)))
        (pipe-IsReady p k h.1 ends.0) (parsepipe-print p fuel k h.1 ends (omega (arith, enough)))

  parseexec-print :
      (e : Exec) (fuel : ℕ) (k : List ℕ)
      → IsExec e
      → Ends stops k
      → size_exec e ≤ fuel
      → parseexec fuel (print_exec e k) ≡ parsed (exec_cmd e) k
  parseexec-print e zero k h ends enough = absurd (no_fuel_exec e enough)
  parseexec-print (simple is) (suc fuel) k h ends enough =
      parseexec-simple fuel (print_items is k) (items-IsReady is k h.0 ends.0)
        (items-paren is k h.0 (Ends-other stops k b'(' ends refl))
      ∙ arguments-print is fuel fuel 0 (exec []) k h.0 ends.0 ends.1 (omega (arith, enough))
          (omega (arith, enough)) (omega (arith, h.1))
  parseexec-print (block l rs) (suc zero) k h ends enough = absurd (omega (arith, enough))
  parseexec-print (block l rs) (suc (suc fuel)) k h ends enough =
      let after = print_redirs rs k in
      let ready = redirs-IsReady rs k h.1 ends.0 in
      let close = print_symbol b')' after in
      let close_ends : Ends line_ends close = (symbol-IsReady b')' (32 ∷ after) refl, inl refl) in
      let inner = print_line l close in
      parseexec-block (suc fuel) (print_symbol b'(' inner) (symbol-IsReady b'(' (32 ∷ inner) refl)
        refl
      ∙ parseblock-step fuel inner after (line_cmd l) (line-IsReady l close h.0 close_ends.0) ready
          (parseline-print l fuel close h.0 close_ends (omega (arith, enough)))
      ∙ parseredirs-print fuel (line_cmd l) rs k h.1 ends.0 (no_redir k ends)
          (omega (arith, enough))

length-word : (w k : List ℕ) → length k + 1 ≤ length (w ++ 32 ∷ k)
length-word w k = omega (arith, length-append {0} w (32 ∷ k))

length-redir : (r : Redir) (k : List ℕ) → length k + 1 ≤ length (print_redir r k)
length-redir r k = elim (Bool-cases (r.kind == b'+')) [
  | inl e ↦ rw e (omega (arith, length-word r.file k))
  | inr e ↦ rw e (omega (arith, length-word r.file k))
]

length-redirs : (rs : List Redir) (k : List ℕ) → length k + length rs ≤ length (print_redirs rs k)
length-redirs [] k = omega arith
length-redirs (r ∷ rs) k = omega (arith, length-redirs rs k, length-redir r (print_redirs rs k))

length-items : (is : List Item) (k : List ℕ) → length k + length is ≤ length (print_items is k)
length-items [] k = omega arith
length-items (arg w ∷ is) k = omega (arith, length-items is k, length-word w (print_items is k))
length-items (redirect_to r ∷ is) k =
    omega (arith, length-items is k, length-redir r (print_items is k))

length-backs : (n : ℕ) (k : List ℕ) → length (print_backs n k) ≡ length k + 2 * n
length-backs zero k = omega arith
length-backs (suc n) k = omega (arith, length-backs n k)

-- The fuel of a line, by the length of its text.
mutual
  unfolding print_line print_pipe print_exec size_line size_pipe size_exec

  line_fuel : (l : Line) (k : List ℕ) → size_line l + 4 * length k ≤ 4 * length (print_line l k) + 6
  line_fuel (last p n) k = omega (arith, pipe_fuel p (print_backs n k), length-backs n k)
  line_fuel (seq p n l) k =
      let semi = print_symbol b';' (print_line l k) in
      omega (arith, pipe_fuel p (print_backs n semi), length-backs n semi, line_fuel l k)

  pipe_fuel : (p : Pipe) (k : List ℕ) → size_pipe p + 4 * length k ≤ 4 * length (print_pipe p k) + 4
  pipe_fuel (single e) k = omega (arith, exec_fuel e k)
  pipe_fuel (piped e p) k =
      omega (arith, exec_fuel e (print_symbol b'|' (print_pipe p k)), pipe_fuel p k)

  exec_fuel : (e : Exec) (k : List ℕ) → size_exec e + 4 * length k ≤ 4 * length (print_exec e k) + 3
  exec_fuel (simple is) k = omega (arith, length-items is k)
  exec_fuel (block l rs) k =
      omega (arith, line_fuel l (print_symbol b')' (print_redirs rs k)), length-redirs rs k)

parsecmd-parsed :
    (s : List ℕ) (c : Cmd) → parseline (4 * length s + 8) s ≡ parsed c [] → parsecmd s ≡ parsed c []
unfolding parsecmd skip
parsecmd-parsed s c e = rw e refl

read_line : (l : Line) → IsLine l → parsecmd (print_line l []) ≡ parsed (line_cmd l) []
read_line l h = parsecmd-parsed (print_line l []) (line_cmd l) (
    parseline-print l (4 * length (print_line l []) + 8) [] h (skip-nil, inr refl)
      (omega (arith, line_fuel l [])))

-- Let the words of a command line be words, and let no command have ten arguments or more. The line,
-- printed with its words, redirections, blocks, pipes, `&`s and `;`s, is read as the command that it
-- means: the arguments of a command in their order, and its redirections around it, the last one
-- outermost, wherever they stand between its arguments; `<` opens its file for reading as the descriptor
-- 0, `>` and `>>` open it for writing, and create it, as the descriptor 1.
pub parsecmd-print : (l : Line) → IsLine l → parsecmd (print_line l []) ≡ parsed (line_means l) []
parsecmd-print l h = read_line l h ∙ ap (λ c. parsed c []) (line_cmd_means l)
