-- ===== src/Shell/Total.antt =====
-- Every text is parsed, or refused: the fuel is never used up.
use cs537_sp2021_dis.Base.{
  ℕ, zero, suc, ◌+◌, ◌*◌, ◌<◌, ◌≤◌, ◌≡◌, refl, inl, inr, Bool, true, false, not, ◌||◌, List, [],
  ◌∷◌, length, leb, arith, ◌==◌, if◌then◌else◌,
}
use cs537_sp2021_dis.Shell.{
  Cmd, exec, back, pipe, list, Result, parsed, syntax, out_of_fuel, bind, skip, peek, gettoken,
  redirect, add_arg, parseredirs, parseargs, parsebacks, parseline, parsepipe, parseblock,
  parseexec, parsecmd,
}
use cs537_sp2021_dis.Shell.Shorter.{gettoken-shorter, gettoken-length, peek-length, peek-shorter}

-- A parser comes back, and what it leaves has at most `n` characters.
abbrev pub Within : ℕ → Result Cmd → Type 0
Within n (parsed c s) = length s ≤ n
Within n syntax = Unit
Within n out_of_fuel = ⊥

Within-≤ : (n m : ℕ) (r : Result Cmd) → n ≤ m → Within n r → Within m r
Within-≤ n m (parsed c s) le h = omega (arith, le, h)
Within-≤ n m syntax le h = tt
Within-≤ n m out_of_fuel le h = elim h [ ]

Within-bind :
    (n : ℕ) (r : Result Cmd) (f : Cmd → List ℕ → Result Cmd)
    → Within n r
    → ((c : Cmd) (s : List ℕ) → length s ≤ n → Within n (f c s))
    → Within n (bind r f)
Within-bind n (parsed c s) f h next = next c s h
Within-bind n syntax f h next = tt
Within-bind n out_of_fuel f h next = elim h [ ]

Within-if :
    (n : ℕ) (b : Bool) (x y : Result Cmd)
    → (b ≡ true → Within n x)
    → (b ≡ false → Within n y)
    → Within n (if b then x else y)
Within-if n true x y h1 h2 = h1 refl
Within-if n false x y h1 h2 = h2 refl

parseredirs-Within :
    (fuel : ℕ) (cmd : Cmd) (s : List ℕ)
    → length s < fuel
    → Within (length s) (parseredirs fuel cmd s)
unfolding parseredirs
parseredirs-Within zero cmd s enough = omega (arith, enough)
parseredirs-Within (suc fuel) cmd s enough =
    let p = peek (b'<' ∷ b'>' ∷ []) s in
    let t1 = gettoken p.1 in
    let t2 = gettoken t1.2 in
    let more = parseredirs fuel (redirect cmd t1.0 t2.1) t2.2 in
    Within-if (length s) p.0 (if t2.0 == b'a' then more else syntax) (parsed cmd p.1)
      (λ found.
        let less = peek-shorter (b'<' ∷ b'>' ∷ []) s found in
        let shorter = gettoken-length t1.2 in
        Within-if (length s) (t2.0 == b'a') more syntax
          (λ a. Within-≤ (length t2.2) (length s) more (omega (arith, less, shorter)) (
            parseredirs-Within fuel (redirect cmd t1.0 t2.1) t2.2
              (omega (arith, less, shorter, enough))))
          (λ b. tt))
      (λ done. peek-length (b'<' ∷ b'>' ∷ []) s)

parseargs-Within :
    (fuel argc : ℕ) (ret : Cmd) (s : List ℕ)
    → length s < fuel
    → Within (length s) (parseargs fuel argc ret s)
unfolding parseargs
parseargs-Within zero argc ret s enough = omega (arith, enough)
parseargs-Within (suc fuel) argc ret s enough =
    let p = peek (b'|' ∷ b')' ∷ b'&' ∷ b';' ∷ []) s in
    let shorter = peek-length (b'|' ∷ b')' ∷ b'&' ∷ b';' ∷ []) s in
    let t = gettoken p.1 in
    let redirs = parseredirs fuel (add_arg ret t.1) t.2 in
    let loop : Cmd → List ℕ → Result Cmd = λ ret' s3. parseargs fuel (argc + 1) ret' s3 in
    let more = bind redirs loop in
    Within-if (length s) p.0 (parsed ret p.1)
      (if t.0 == 0
        then parsed ret t.2
        else if not (t.0 == b'a') || leb 10 (argc + 1)
        then syntax
        else more)
      (λ stop. shorter)
      (λ goes.
        Within-if (length s) (t.0 == 0) (parsed ret t.2)
          (if not (t.0 == b'a') || leb 10 (argc + 1) then syntax else more)
          (λ e. omega (arith, shorter, gettoken-length p.1))
          (λ e.
            Within-if (length s) (not (t.0 == b'a') || leb 10 (argc + 1)) syntax more (λ bad. tt)
              (λ good. elim (gettoken-shorter p.1) [
                | inl z ↦ absurd (ground (arith, z, e))
                | inr less ↦ Within-≤ (length t.2) (length s) more (omega (arith, less, shorter)) (
                    Within-bind (length t.2) redirs loop
                      (parseredirs-Within fuel (add_arg ret t.1) t.2
                        (omega (arith, less, shorter, enough)))
                      (λ c s3 le. Within-≤ (length s3) (length t.2) (loop c s3) le (
                        parseargs-Within fuel (argc + 1) c s3
                          (omega (arith, le, less, shorter, enough)))))
              ])))

parsebacks-Within :
    (fuel : ℕ) (cmd : Cmd) (s : List ℕ)
    → length s < fuel
    → Within (length s) (parsebacks fuel cmd s)
unfolding parsebacks
parsebacks-Within zero cmd s enough = omega (arith, enough)
parsebacks-Within (suc fuel) cmd s enough =
    let p = peek (b'&' ∷ []) s in
    let t = gettoken p.1 in
    Within-if (length s) p.0 (parsebacks fuel (back cmd) t.2) (parsed cmd p.1)
      (λ found.
        let less = peek-shorter (b'&' ∷ []) s found in
        Within-≤ (length t.2) (length s) (parsebacks fuel (back cmd) t.2) (omega (arith, less))
          (parsebacks-Within fuel (back cmd) t.2 (omega (arith, less, enough))))
      (λ done. peek-length (b'&' ∷ []) s)

-- A choice by the next character, whose token is shorter.
Within-peek :
    (n : ℕ) (toks s : List ℕ) (x y : Result Cmd)
    → length s ≤ n
    → (suc (length (gettoken (peek toks s).1).2) ≤ n → Within n x)
    → (length (peek toks s).1 ≤ n → Within n y)
    → Within n (if (peek toks s).0 then x else y)
Within-peek n toks s x y le h1 h2 =
    Within-if n (peek toks s).0 x y (λ found. h1 (omega (arith, le, peek-shorter toks s found)))
      (λ other. h2 (omega (arith, le, peek-length toks s)))

-- The fuel for a text of `n` characters: a parenthesis takes four calls.
mutual
  unfolding parseline parsepipe parseblock parseexec

  parseline-Within :
      (fuel : ℕ) (s : List ℕ) → 4 * length s + 4 ≤ fuel → Within (length s) (parseline fuel s)
  parseline-Within zero s enough = omega (arith, enough)
  parseline-Within (suc fuel) s enough =
      let n = length s in
      let more : Cmd → List ℕ → Result Cmd =
        λ cmd t. bind (parseline fuel t) λ right s5. parsed (list cmd right) s5 in
      let choose : Cmd → List ℕ → Result Cmd = λ cmd s2.
        let p = peek (b';' ∷ []) s2 in if p.0 then more cmd (gettoken p.1).2 else parsed cmd p.1 in
      Within-bind n (parsepipe fuel s) (λ cmd s1. bind (parsebacks fuel cmd s1) choose)
        (parsepipe-Within fuel s (omega (arith, enough)))
        (λ cmd s1 le1.
          Within-bind n (parsebacks fuel cmd s1) choose
            (Within-≤ (length s1) n (parsebacks fuel cmd s1) le1
              (parsebacks-Within fuel cmd s1 (omega (arith, le1, enough))))
            (λ cmd' s2 le2.
              let t = (gettoken (peek (b';' ∷ []) s2).1).2 in
              Within-peek n (b';' ∷ []) s2 (more cmd' t) (parsed cmd' (peek (b';' ∷ []) s2).1) le2
                (λ less.
                  Within-bind n (parseline fuel t) (λ right s5. parsed (list cmd' right) s5)
                    (Within-≤ (length t) n (parseline fuel t) (omega (arith, less))
                      (parseline-Within fuel t (omega (arith, less, enough))))
                    (λ right s5 le5. le5))
                (λ le. le)))

  parsepipe-Within :
      (fuel : ℕ) (s : List ℕ) → 4 * length s + 3 ≤ fuel → Within (length s) (parsepipe fuel s)
  parsepipe-Within zero s enough = omega (arith, enough)
  parsepipe-Within (suc fuel) s enough =
      let n = length s in
      let more : Cmd → List ℕ → Result Cmd =
        λ cmd t. bind (parsepipe fuel t) λ right s4. parsed (pipe cmd right) s4 in
      Within-bind n (parseexec fuel s)
        (λ cmd s1.
          let p = peek (b'|' ∷ []) s1 in if p.0 then more cmd (gettoken p.1).2 else parsed cmd p.1)
        (parseexec-Within fuel s (omega (arith, enough)))
        (λ cmd s1 le1.
          let t = (gettoken (peek (b'|' ∷ []) s1).1).2 in
          Within-peek n (b'|' ∷ []) s1 (more cmd t) (parsed cmd (peek (b'|' ∷ []) s1).1) le1
            (λ less.
              Within-bind n (parsepipe fuel t) (λ right s4. parsed (pipe cmd right) s4)
                (Within-≤ (length t) n (parsepipe fuel t) (omega (arith, less))
                  (parsepipe-Within fuel t (omega (arith, less, enough))))
                (λ right s4 le4. le4))
            (λ le. le))

  -- The `(` is still to come.
  parseblock-Within :
      (fuel : ℕ) (s : List ℕ) → 4 * length s + 1 ≤ fuel → Within (length s) (parseblock fuel s)
  parseblock-Within zero s enough = omega (arith, enough)
  parseblock-Within (suc fuel) s enough =
      let n = length s in
      let t = (gettoken (peek (b'(' ∷ []) s).1).2 in
      let close : Cmd → List ℕ → Result Cmd = λ cmd s3.
        let p = peek (b')' ∷ []) s3 in
        if p.0 then parseredirs fuel cmd (gettoken p.1).2 else syntax in
      Within-peek n (b'(' ∷ []) s (bind (parseline fuel t) close) syntax (omega arith)
        (λ less.
          Within-bind n (parseline fuel t) close
            (Within-≤ (length t) n (parseline fuel t) (omega (arith, less))
              (parseline-Within fuel t (omega (arith, less, enough))))
            (λ cmd s3 le3.
              let r = (gettoken (peek (b')' ∷ []) s3).1).2 in
              Within-peek n (b')' ∷ []) s3 (parseredirs fuel cmd r) syntax le3
                (λ less3.
                  Within-≤ (length r) n (parseredirs fuel cmd r) (omega (arith, less3))
                    (parseredirs-Within fuel cmd r (omega (arith, less3, enough))))
                (λ le. tt)))
        (λ le. tt)

  parseexec-Within :
      (fuel : ℕ) (s : List ℕ) → 4 * length s + 2 ≤ fuel → Within (length s) (parseexec fuel s)
  parseexec-Within zero s enough = omega (arith, enough)
  parseexec-Within (suc fuel) s enough =
      let n = length s in
      let p = peek (b'(' ∷ []) s in
      let redirs = parseredirs fuel (exec []) p.1 in
      let loop : Cmd → List ℕ → Result Cmd = λ ret s2. parseargs fuel 0 ret s2 in
      let le = peek-length (b'(' ∷ []) s in
      Within-if n p.0 (parseblock fuel p.1) (bind redirs loop)
        (λ found.
          Within-≤ (length p.1) n (parseblock fuel p.1) le
            (parseblock-Within fuel p.1 (omega (arith, le, enough))))
        (λ other.
          Within-bind n redirs loop
            (Within-≤ (length p.1) n redirs le
              (parseredirs-Within fuel (exec []) p.1 (omega (arith, le, enough))))
            (λ ret s2 le2.
              Within-≤ (length s2) n (parseargs fuel 0 ret s2) le2
                (parseargs-Within fuel 0 ret s2 (omega (arith, le2, enough)))))

-- A command has come from the whole text, or the text is refused.
abbrev pub Finishes : Result Cmd → Type 0
Finishes (parsed c s) = s ≡ []
Finishes syntax = Unit
Finishes out_of_fuel = ⊥

Finishes-end : (c : Cmd) (t : List ℕ) → Finishes (elim t [ [] ↦ parsed c [] | d ∷ r ↦ syntax ])
Finishes-end c [] = refl
Finishes-end c (d ∷ r) = tt

Finishes-bind :
    (n : ℕ) (r : Result Cmd)
    → Within n r
    → Finishes (bind r λ c s. elim (skip s) [ [] ↦ parsed c [] | d ∷ t ↦ syntax ])
Finishes-bind n (parsed c s) h = Finishes-end c (skip s)
Finishes-bind n syntax h = tt
Finishes-bind n out_of_fuel h = elim h [ ]

-- For every text the parser comes back: with a command, when it has read the text to its end, or
-- with a syntax error. It never runs out of fuel.
pub parsecmd-Finishes : (s : List ℕ) → Finishes (parsecmd s)
unfolding parsecmd
parsecmd-Finishes s =
    let fuel = 4 * length s + 8 in
    Finishes-bind (length s) (parseline fuel s) (parseline-Within fuel s (omega arith))
