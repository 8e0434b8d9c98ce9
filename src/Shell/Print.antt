-- ===== src/Shell/Print.antt =====
-- Command lines as trees, their text, and the commands that they mean. Each token is printed with a
-- space behind it; a printer is given the text `k` that follows.
use cs537_sp2021_dis.Base.{
  ℕ, zero, suc, ◌<◌, ◌≡◌, ◌≢◌, true, false, List, [], ◌∷◌, ◌++◌, All, is_in, ◌==◌, if◌then◌else◌,
}
use cs537_sp2021_dis.Shell.{
  Cmd, exec, redir, pipe, list, back, is_white, is_symbol, redirect, add_arg,
}

-- A redirection: `<`, `>` or `>>`, the last with the kind `+`.
pub record Redir : Type 0 where
  pub kind : ℕ
  pub file : List ℕ

pub data Item : Type 0 where
  arg : List ℕ → Item
  redirect_to : Redir → Item

mutual
  pub data Line : Type 0 where
    -- so many `&` behind the pipe
    last : Pipe → ℕ → Line
    seq : Pipe → ℕ → Line → Line

  pub data Pipe : Type 0 where
    single : Exec → Pipe
    piped : Exec → Pipe → Pipe

  pub data Exec : Type 0 where
    simple : List Item → Exec
    block : Line → List Redir → Exec

abbrev pub print_word : List ℕ → List ℕ → List ℕ
print_word w k = w ++ 32 ∷ k

abbrev pub print_symbol : ℕ → List ℕ → List ℕ
print_symbol c k = c ∷ 32 ∷ k

abbrev pub print_redir : Redir → List ℕ → List ℕ
print_redir r k =
    if r.kind == b'+'
    then b'>' ∷ print_symbol b'>' (print_word r.file k)
    else print_symbol r.kind (print_word r.file k)

abbrev pub print_redirs : List Redir → List ℕ → List ℕ
print_redirs [] k = k
print_redirs (r ∷ rs) k = print_redir r (print_redirs rs k)

abbrev pub print_items : List Item → List ℕ → List ℕ
print_items [] k = k
print_items (arg w ∷ is) k = print_word w (print_items is k)
print_items (redirect_to r ∷ is) k = print_redir r (print_items is k)

abbrev pub print_backs : ℕ → List ℕ → List ℕ
print_backs zero k = k
print_backs (suc n) k = print_symbol b'&' (print_backs n k)

unfoldable mutual
  pub print_line : Line → List ℕ → List ℕ
  print_line (last p n) k = print_pipe p (print_backs n k)
  print_line (seq p n l) k = print_pipe p (print_backs n (print_symbol b';' (print_line l k)))

  pub print_pipe : Pipe → List ℕ → List ℕ
  print_pipe (single e) k = print_exec e k
  print_pipe (piped e p) k = print_exec e (print_symbol b'|' (print_pipe p k))

  pub print_exec : Exec → List ℕ → List ℕ
  print_exec (simple is) k = print_items is k
  print_exec (block l rs) k =
      print_symbol b'(' (print_line l (print_symbol b')' (print_redirs rs k)))

-- What the parser builds, step by step.
abbrev pub wrap : Cmd → List Redir → Cmd
wrap c [] = c
wrap c (r ∷ rs) = wrap (redirect c r.kind r.file) rs

abbrev pub run_items : Cmd → List Item → Cmd
run_items c [] = c
run_items c (arg w ∷ is) = run_items (add_arg c w) is
run_items c (redirect_to r ∷ is) = run_items (redirect c r.kind r.file) is

abbrev pub run_backs : Cmd → ℕ → Cmd
run_backs c zero = c
run_backs c (suc n) = run_backs (back c) n

unfoldable mutual
  pub line_cmd : Line → Cmd
  line_cmd (last p n) = run_backs (pipe_cmd p) n
  line_cmd (seq p n l) = list (run_backs (pipe_cmd p) n) (line_cmd l)

  pub pipe_cmd : Pipe → Cmd
  pipe_cmd (single e) = exec_cmd e
  pipe_cmd (piped e p) = pipe (exec_cmd e) (pipe_cmd p)

  pub exec_cmd : Exec → Cmd
  exec_cmd (simple is) = run_items (exec []) is
  exec_cmd (block l rs) = wrap (line_cmd l) rs

-- What a command line means, apart from the parser: the words of a command are its arguments in their
-- order, and its redirections are around it, the last one outermost. `<` opens the file for reading (mode
-- 0) as the descriptor 0; `>` and `>>` open it for writing, and create it (mode 513), as the descriptor 1.
abbrev pub opened : Cmd → Redir → Cmd
opened c r = if r.kind == b'<' then redir c r.file 0 0 else redir c r.file 513 1

abbrev pub around : Cmd → List Redir → Cmd
around c [] = c
around c (r ∷ rs) = around (opened c r) rs

abbrev pub words : List Item → List (List ℕ)
words [] = []
words (arg w ∷ is) = w ∷ words is
words (redirect_to r ∷ is) = words is

abbrev pub files : List Item → List Redir
files [] = []
files (arg w ∷ is) = files is
files (redirect_to r ∷ is) = r ∷ files is

abbrev pub behind : Cmd → ℕ → Cmd
behind c zero = c
behind c (suc n) = back (behind c n)

unfoldable mutual
  pub line_means : Line → Cmd
  line_means (last p n) = behind (pipe_means p) n
  line_means (seq p n l) = list (behind (pipe_means p) n) (line_means l)

  pub pipe_means : Pipe → Cmd
  pipe_means (single e) = exec_means e
  pipe_means (piped e p) = pipe (exec_means e) (pipe_means p)

  pub exec_means : Exec → Cmd
  exec_means (simple is) = around (exec (words is)) (files is)
  exec_means (block l rs) = around (line_means l) rs

-- A word is not empty, and its characters are no white space and no symbols.
abbrev pub IsChar : ℕ → Type 0
IsChar c = (is_white c ≡ false) × (is_symbol c ≡ false)

abbrev pub IsWord : List ℕ → Type 0
IsWord w = (w ≢ []) × All IsChar w

abbrev pub IsRedir : Redir → Type 0
IsRedir r = (is_in r.kind (b'<' ∷ b'>' ∷ b'+' ∷ []) ≡ true) × IsWord r.file

abbrev pub IsItem : Item → Type 0
IsItem (arg w) = IsWord w
IsItem (redirect_to r) = IsRedir r

abbrev pub args : List Item → ℕ
args [] = 0
args (arg w ∷ is) = suc (args is)
args (redirect_to r ∷ is) = args is

-- Words are words, and no command has more arguments than the shell holds.
unfoldable mutual
  pub IsLine : Line → Type 0
  IsLine (last p n) = IsPipe p
  IsLine (seq p n l) = IsPipe p × IsLine l

  pub IsPipe : Pipe → Type 0
  IsPipe (single e) = IsExec e
  IsPipe (piped e p) = IsExec e × IsPipe p

  pub IsExec : Exec → Type 0
  IsExec (simple is) = All IsItem is × (args is < 10)
  IsExec (block l rs) = IsLine l × All IsRedir rs
