-- ===== src/Shell/Tests.antt =====
-- A command line, a text that is none, and the instances of the theorems.
use cs537_sp2021_dis.Base.{ℕ, ◌≡◌, refl, List, [], ◌∷◌, arith}
use cs537_sp2021_dis.Shell.{exec, redir, pipe, back, parsed, parsecmd}
use cs537_sp2021_dis.Shell.Print.{
  arg, redirect_to, Line, last, single, piped, simple, block, print_line, line_means, pipe_means,
  exec_means, IsLine, IsPipe, IsExec,
}
use cs537_sp2021_dis.Shell.RoundTrip.{parsecmd-print}
use cs537_sp2021_dis.Shell.Total.{Finishes, parsecmd-Finishes}

-- `( a > f b ) | c &`
abbrev sample : Line
sample =
    last
      (piped
        (block
          (last
            (single (
              simple (
                arg (b'a' ∷ [])
                ∷ redirect_to (record { kind = b'>'; file = b'f' ∷ [] })
                ∷ arg (b'b' ∷ [])
                ∷ [])))
            0)
          [])
        (single (simple (arg (b'c' ∷ []) ∷ []))))
      1

sample_means :
    line_means sample
    ≡ back (
        pipe
          (redir (exec ((b'a' ∷ []) ∷ (b'b' ∷ []) ∷ [])) (b'f' ∷ []) 513 1)
          (exec ((b'c' ∷ []) ∷ [])))
unfolding line_means pipe_means exec_means
sample_means = refl

sample-IsLine : IsLine sample
unfolding IsLine IsPipe IsExec
sample-IsLine = ground arith

parsecmd-print_example : parsecmd (print_line sample []) ≡ parsed (line_means sample) []
parsecmd-print_example = parsecmd-print sample sample-IsLine

-- `( a ;`
abbrev unclosed : List ℕ
unclosed = b'(' ∷ 32 ∷ b'a' ∷ 32 ∷ b';' ∷ []

parsecmd-Finishes_example : Finishes (parsecmd unclosed)
parsecmd-Finishes_example = parsecmd-Finishes unclosed
