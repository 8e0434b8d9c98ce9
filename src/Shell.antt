-- ===== src/Shell.antt =====
-- xv6/sh.c: the parser of the shell. The text from `s` to `es` is the list of its characters; a word
-- is the characters between `q` and `eq`, which `nulterminate` makes a string. A panic is `syntax`.
-- The calls of the parser are counted by fuel: each costs one.
pub mod Print
pub mod Lex
pub mod Commands
pub mod Steps
pub mod Means
pub mod RoundTrip
pub mod Shorter
pub mod Total
mod Tests
use cs537_sp2021_dis.Base.{
  ℕ, zero, suc, ◌+◌, ◌*◌, Bool, true, false, not, ◌&&◌, ◌||◌, List, [], ◌∷◌, ◌++◌, length, leb,
  ◌==◌, if◌then◌else◌, is_in,
}

-- xv6/fcntl.h
abbrev pub o_rdonly : ℕ
o_rdonly = 0

-- `O_WRONLY|O_CREATE`
abbrev pub o_create : ℕ
o_create = 513

pub data Cmd : Type 0 where
  exec : List (List ℕ) → Cmd
  -- the command, the file, the mode and the descriptor
  redir : Cmd → List ℕ → ℕ → ℕ → Cmd
  pipe : Cmd → Cmd → Cmd
  list : Cmd → Cmd → Cmd
  back : Cmd → Cmd

pub data Result {ℓ} (A : Type ℓ) : Type ℓ where
  parsed : A → List ℕ → Result A
  syntax : Result A
  out_of_fuel : Result A

abbrev pub bind {ℓ κ} : {A : Type ℓ} {B : Type κ} → Result A → (A → List ℕ → Result B) → Result B
bind (parsed a s) f = f a s
bind syntax f = syntax
bind out_of_fuel f = out_of_fuel

-- " \t\r\n\v"
abbrev pub is_white : ℕ → Bool
is_white c = c == 32 || c == 9 || c == 13 || c == 10 || c == 11

-- "<|>&;()"
abbrev pub is_symbol : ℕ → Bool
is_symbol c =
    c == b'<' || c == b'|' || c == b'>' || c == b'&' || c == b';' || c == b'(' || c == b')'

-- `while(s < es && strchr(whitespace, *s)) s++;`
pub skip : List ℕ → List ℕ
skip [] = []
skip (c ∷ s) = if is_white c then skip s else c ∷ s

-- The end of a word: its characters, and the text behind it.
pub span_word : List ℕ → List ℕ × List ℕ
span_word [] = ([], [])
span_word (c ∷ s) =
    if is_white c || is_symbol c then ([], c ∷ s) else (c ∷ (span_word s).0, (span_word s).1)

-- What `gettoken` finds at a character that is not white: the kind, the word, and the text behind it.
pub token_at : List ℕ → ℕ × List ℕ × List ℕ
token_at [] = (0, [], [])
token_at (c ∷ s) =
    if c == b'>'
    then elim s [ [] ↦ (c, [], []) | d ∷ r ↦ if d == b'>' then (b'+', [], r) else (c, [], d ∷ r) ]
    else if is_symbol c
    then (c, [], s)
    else (b'a', (span_word (c ∷ s)).0, (span_word (c ∷ s)).1)

pub gettoken : List ℕ → ℕ × List ℕ × List ℕ
gettoken s = let (kind, word, rest) = token_at (skip s) in (kind, word, skip rest)

-- Whether the next character is one of `toks`, and the text without the white space before it.
pub peek : List ℕ → List ℕ → Bool × List ℕ
peek toks s = (elim (skip s) [ [] ↦ false | c ∷ r ↦ is_in c toks ], skip s)

-- One redirection: its kind, and the file.
pub redirect : Cmd → ℕ → List ℕ → Cmd
redirect cmd tok file = if tok == b'<' then redir cmd file o_rdonly 0 else redir cmd file o_create 1

pub parseredirs : ℕ → Cmd → List ℕ → Result Cmd
parseredirs zero cmd s = out_of_fuel
parseredirs (suc fuel) cmd s =
    let (found, s1) = peek (b'<' ∷ b'>' ∷ []) s in
    let (tok, none, s2) = gettoken s1 in
    let (kind, file, s3) = gettoken s2 in
    let more = parseredirs fuel (redirect cmd tok file) s3 in
    if found then (if kind == b'a' then more else syntax) else parsed cmd s1

-- `cmd->argv[argc] = q` in the `execcmd` under the redirections.
pub add_arg : Cmd → List ℕ → Cmd
add_arg (exec ws) w = exec (ws ++ w ∷ [])
add_arg (redir c file mode fd) w = redir (add_arg c w) file mode fd
add_arg c w = c

-- The loop of `parseexec`.
pub parseargs : ℕ → ℕ → Cmd → List ℕ → Result Cmd
parseargs zero argc ret s = out_of_fuel
parseargs (suc fuel) argc ret s =
    let (stop, s1) = peek (b'|' ∷ b')' ∷ b'&' ∷ b';' ∷ []) s in
    let (tok, word, s2) = gettoken s1 in
    let more =
      bind (parseredirs fuel (add_arg ret word) s2) λ ret' s3. parseargs fuel (argc + 1) ret' s3 in
    if stop
    then parsed ret s1
    else if tok == 0
    then parsed ret s2
    else if not (tok == b'a') || leb 10 (argc + 1)
    then syntax
    else more

-- `while(peek(ps, es, "&"))`
pub parsebacks : ℕ → Cmd → List ℕ → Result Cmd
parsebacks zero cmd s = out_of_fuel
parsebacks (suc fuel) cmd s =
    let (found, s1) = peek (b'&' ∷ []) s in
    let (tok, none, s2) = gettoken s1 in
    let more = parsebacks fuel (back cmd) s2 in if found then more else parsed cmd s1

mutual
  pub parseline : ℕ → List ℕ → Result Cmd
  parseline zero s = out_of_fuel
  parseline (suc fuel) s = bind (parsepipe fuel s) λ cmd s1.
      bind (parsebacks fuel cmd s1) λ cmd' s2.
        let (found, s3) = peek (b';' ∷ []) s2 in
        let (tok, none, s4) = gettoken s3 in
        let more = bind (parseline fuel s4) λ right s5. parsed (list cmd' right) s5 in
        if found then more else parsed cmd' s3

  pub parsepipe : ℕ → List ℕ → Result Cmd
  parsepipe zero s = out_of_fuel
  parsepipe (suc fuel) s = bind (parseexec fuel s) λ cmd s1.
      let (found, s2) = peek (b'|' ∷ []) s1 in
      let (tok, none, s3) = gettoken s2 in
      let more = bind (parsepipe fuel s3) λ right s4. parsed (pipe cmd right) s4 in
      if found then more else parsed cmd s2

  pub parseblock : ℕ → List ℕ → Result Cmd
  parseblock zero s = out_of_fuel
  parseblock (suc fuel) s =
      let (found, s1) = peek (b'(' ∷ []) s in
      let (tok, none, s2) = gettoken s1 in
      let block = bind (parseline fuel s2) λ cmd s3.
        let (closed, s4) = peek (b')' ∷ []) s3 in
        let (tok', none', s5) = gettoken s4 in
        let rest = parseredirs fuel cmd s5 in if closed then rest else syntax in
      if found then block else syntax

  pub parseexec : ℕ → List ℕ → Result Cmd
  parseexec zero s = out_of_fuel
  parseexec (suc fuel) s =
      let (found, s1) = peek (b'(' ∷ []) s in
      let block = parseblock fuel s1 in
      let args = bind (parseredirs fuel (exec []) s1) λ ret s2. parseargs fuel 0 ret s2 in
      if found then block else args

-- The whole text must be read.
pub parsecmd : List ℕ → Result Cmd
parsecmd s =
    bind (parseline (4 * length s + 8) s)
      λ cmd s1. elim (skip s1) [ [] ↦ parsed cmd [] | c ∷ r ↦ syntax ]
