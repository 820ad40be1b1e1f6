-- ===== src/Shell/RoundTrip.antt =====
-- The parser of the shell (src/user/sh/main.c) reads printed commands back.
use fdu2024_os_honor_lab.Prelude.{
  if◌then◌else◌, false, true, inr, inl, leb, ltb, Bool-cases, ℕ, zero, suc, ◌+◌, ◌*◌, ◌≡◌, ◌≤◌, ◌∙◌,
  refl, ap, List, [], ◌∷◌, ◌++◌, length, arith,
}
use fdu2024_os_honor_lab.Shell.{
  pool_size, pool_used, within_pool, exits, Cmd, exec, redir, pipe, seq, back, ok, skip, Redirs,
  wrap, parse_backs, parse_line, parse_pipe, parse_exec, parse_block, parse_cmd,
}
use fdu2024_os_honor_lab.Shell.Print.{
  lines, backs, pipes, single, print_redirs, print, print_cmd, AreFiles, IsTyped,
}
use fdu2024_os_honor_lab.Shell.Lex.{
  SingleEnd, pipe_end, bar, PipeEnd, line_end, semi, amp, LineEnd, finished, closed, skip_end,
  skip_symbol, peek_symbol, peek_other, gettoken_symbol, peek_no_pipe, peek_no_amp, peek_no_semi,
  parse_redirs-print, skip_redirs, length-redirs,
}
use fdu2024_os_honor_lab.Shell.Text.{skip-print, print_longer, no_nul-print, until_nul-text}
use fdu2024_os_honor_lab.Shell.Args.{parse_exec-simple}

-- What parsing gives for the text of `c` at each level, in front of a place where that level ends
abbrev ReadsLine : Cmd → Type 0
ReadsLine c =
    (f : ℕ) (t : List ℕ)
    → LineEnd t
    → 4 * length (print lines c t) + 4 ≤ f
    → parse_line f (print lines c t) ≡ ok (c, t)

abbrev ReadsBacks : Cmd → Type 0
ReadsBacks c =
    (f : ℕ) (t : List ℕ)
    → PipeEnd t
    → 4 * length (print backs c t) + 3 ≤ f
    → (x : Cmd × List ℕ) × (parse_pipe f (print backs c t) ≡ ok x)
      × (parse_backs (suc (length x.1)) x.0 x.1 ≡ parse_backs (suc (length t)) c t)

abbrev ReadsPipe : Cmd → Type 0
ReadsPipe c =
    (f : ℕ) (t : List ℕ)
    → PipeEnd t
    → 4 * length (print pipes c t) + 3 ≤ f
    → parse_pipe f (print pipes c t) ≡ ok (c, t)

abbrev ReadsSingle : Cmd → Type 0
ReadsSingle c =
    (f : ℕ) (rs : Redirs) (t : List ℕ)
    → AreFiles rs
    → SingleEnd t
    → 4 * length (print single c (print_redirs rs t)) + 2 ≤ f
    → parse_exec f (print single c (print_redirs rs t)) ≡ ok (wrap c rs, t)

-- Where a pipeline stands for itself
backs-of-pipe :
    (c : Cmd) → ((t : List ℕ) → print backs c t ≡ print pipes c t) → ReadsPipe c → ReadsBacks c
backs-of-pipe c same h f t e le = ((c, t), rw (same t) (h f t e (rw (same t) at le)), refl)

pipe-of-single :
    (c : Cmd) → ((t : List ℕ) → print pipes c t ≡ print single c t) → ReadsSingle c → ReadsPipe c
unfolding parse_pipe
pipe-of-single c same h zero t e le = ground (arith, le)
pipe-of-single c same h (suc f) t e le =
    let small : 4 * length (print single c t) + 2 ≤ f =
      let le2 = rw (same t) at le in omega (arith, le2) in
    rw (same t, h f [] t tt (pipe_end t e) small, peek_no_pipe t e, skip_end t (pipe_end t e)) refl

parse_backs-stop : (g : ℕ) (c : Cmd) (t : List ℕ) → LineEnd t → parse_backs (suc g) c t ≡ ok (c, t)
unfolding parse_backs
parse_backs-stop g c t e = rw (peek_no_amp t e, skip_end t (pipe_end t (line_end t e))) refl

line-of-backs :
    (c : Cmd) → ((t : List ℕ) → print lines c t ≡ print backs c t) → ReadsBacks c → ReadsLine c
unfolding parse_line
line-of-backs c same h zero t e le = ground (arith, le)
line-of-backs c same h (suc f) t e le =
    let small : 4 * length (print backs c t) + 3 ≤ f =
      let le2 = rw (same t) at le in omega (arith, le2) in
    let r = h f t (line_end t e) small in
    rw
      (
        same t,
        r.1,
        r.2,
        parse_backs-stop (length t) c t e,
        peek_no_semi t e,
        skip_end t (pipe_end t (line_end t e)),
      )
      refl

-- A command in parentheses
single-of-line :
    (c : Cmd)
    → IsTyped c
    → ((t : List ℕ) → print single c t ≡ b'(' ∷ print lines c (b')' ∷ t))
    → ReadsLine c
    → ReadsSingle c
unfolding parse_exec parse_block
single-of-line c ty same h zero rs t b e le = ground (arith, le)
single-of-line c ty same h (suc zero) rs t b e le =
    let le2 = rw (same (print_redirs rs t)) at le in ground (arith, le2)
single-of-line c ty same h (suc (suc f)) rs t b e le =
    let r = print_redirs rs t in
    let small : 4 * length (print lines c (b')' ∷ r)) + 4 ≤ f =
      let le2 = rw (same r) at le in omega (arith, le2) in
    rw
      (
        same r,
        peek_symbol b'(' (print lines c (b')' ∷ r)) refl,
        gettoken_symbol b'(' (print lines c (b')' ∷ r)) refl refl,
        skip-print lines c (b')' ∷ r) ty (skip_symbol b')' r refl),
        h f (b')' ∷ r) (closed r) small,
        peek_symbol b')' r refl,
        gettoken_symbol b')' r refl refl,
        skip_redirs rs t e,
        parse_redirs-print (suc (length r)) rs t (omega (arith, length-redirs rs t)) b e,
      )
      refl

pipe_reads : (c d : Cmd) → IsTyped d → ReadsSingle c → ReadsPipe d → ReadsPipe (pipe c d)
unfolding parse_pipe
pipe_reads c d ty h k zero t e le = ground (arith, le)
pipe_reads c d ty h k (suc f) t e le =
    let r = print pipes d t in
    rw
      (
        h f [] (b'|' ∷ r) tt (bar r) (omega (arith, le)),
        peek_symbol b'|' r refl,
        gettoken_symbol b'|' r refl refl,
        skip-print pipes d t ty (skip_end t (pipe_end t e)),
        k f t e (omega (arith, le, print_longer single c (b'|' ∷ r))),
      )
      refl

seq_reads : (c d : Cmd) → IsTyped d → ReadsBacks c → ReadsLine d → ReadsLine (seq c d)
unfolding parse_line parse_backs
seq_reads c d ty h k zero t e le = ground (arith, le)
seq_reads c d ty h k (suc f) t e le =
    let r = print lines d t in
    let x = h f (b';' ∷ r) (semi r) (omega (arith, le)) in
    let stop : parse_backs (suc (length (b';' ∷ r))) c (b';' ∷ r) ≡ ok (c, b';' ∷ r) =
      rw (peek_other b'&' b';' r refl refl, skip_symbol b';' r refl) refl in
    rw
      (
        x.1,
        x.2,
        stop,
        peek_symbol b';' r refl,
        gettoken_symbol b';' r refl refl,
        skip-print lines d t ty (skip_end t (pipe_end t (line_end t e))),
        k f t e (omega (arith, le, print_longer backs c (b';' ∷ r))),
      )
      refl

parse_backs-more :
    (g : ℕ) (c : Cmd) (t : List ℕ)
    → skip t ≡ t
    → parse_backs (suc g) c (b'&' ∷ t) ≡ parse_backs g (back c) t
unfolding parse_backs
parse_backs-more g c t e =
    let step : parse_backs (suc g) c (b'&' ∷ t) ≡ parse_backs g (back c) (skip t) =
      rw (peek_symbol b'&' t refl, gettoken_symbol b'&' t refl refl) refl in
    step ∙ ap (parse_backs g (back c)) e

back_reads : (c : Cmd) → ReadsBacks c → ReadsBacks (back c)
back_reads c h f t e le =
    let x = h f (b'&' ∷ t) (amp t) (omega (arith, le)) in
    (x.0, x.1, x.2 ∙ parse_backs-more (suc (length t)) c t (skip_end t (pipe_end t e)))

exec_reads : (args : List (List ℕ)) → IsTyped (exec args) → ReadsSingle (exec args)
exec_reads args h zero rs t b e le = ground (arith, le)
exec_reads args h (suc f) rs t b e le = parse_exec-simple f args rs t h.0 h.1 b e

-- All four levels
record Reads (c : Cmd) : Type 0 where
  line : ReadsLine c
  backed : ReadsBacks c
  piped : ReadsPipe c
  alone : ReadsSingle c

all-Reads : (c : Cmd) → IsTyped c → Reads c
all-Reads (exec args) h =
    let single_one : ReadsSingle (exec args) = exec_reads args h in
    let pipe_one = pipe-of-single (exec args) (λ t. refl) single_one in
    let backs_one = backs-of-pipe (exec args) (λ t. refl) pipe_one in
    record {
      line = line-of-backs (exec args) (λ t. refl) backs_one;
      backed = backs_one;
      piped = pipe_one;
      alone = single_one;
    }
all-Reads (redir c file m) h =
    let all_c = all-Reads c h.0 in
    let single_one : ReadsSingle (redir c file m) =
      λ f rs t b e le. all_c.alone f ((m, file) ∷ rs) t (h.1, b) e le in
    let pipe_one = pipe-of-single (redir c file m) (λ t. refl) single_one in
    let backs_one = backs-of-pipe (redir c file m) (λ t. refl) pipe_one in
    record {
      line = line-of-backs (redir c file m) (λ t. refl) backs_one;
      backed = backs_one;
      piped = pipe_one;
      alone = single_one;
    }
all-Reads (pipe c d) h =
    let pipe_one = pipe_reads c d h.1 (all-Reads c h.0).alone (all-Reads d h.1).piped in
    let backs_one = backs-of-pipe (pipe c d) (λ t. refl) pipe_one in
    let line_one = line-of-backs (pipe c d) (λ t. refl) backs_one in
    record {
      line = line_one;
      backed = backs_one;
      piped = pipe_one;
      alone = single-of-line (pipe c d) h (λ t. refl) line_one;
    }
all-Reads (seq c d) h =
    let line_one = seq_reads c d h.1 (all-Reads c h.0).backed (all-Reads d h.1).line in
    let single_one = single-of-line (seq c d) h (λ t. refl) line_one in
    let pipe_one = pipe-of-single (seq c d) (λ t. refl) single_one in
    record {
      line = line_one;
      backed = backs-of-pipe (seq c d) (λ t. refl) pipe_one;
      piped = pipe_one;
      alone = single_one;
    }
all-Reads (back c) h =
    let backs_one = back_reads c (all-Reads c h).backed in
    let line_one = line-of-backs (back c) (λ t. refl) backs_one in
    let single_one = single-of-line (back c) h (λ t. refl) line_one in
    record {
      line = line_one;
      backed = backs_one;
      piped = pipe-of-single (back c) (λ t. refl) single_one;
      alone = single_one;
    }

-- The text of a command that can be typed, which ends at the first NUL, is read as that command if its nodes fit the
-- pool of malloc1, and otherwise ends the child: printing at the level of lines and parse_cmd are a round trip.
pub parse_cmd-print :
    (c : Cmd) (junk : List ℕ)
    → IsTyped c
    → parse_cmd (print_cmd c ++ (0 ∷ junk)) ≡ (if leb (pool_used c) pool_size then ok c else exits)
unfolding parse_cmd skip within_pool
parse_cmd-print c junk h =
    let text = print_cmd c in
    rw
      (
        until_nul-text text junk (no_nul-print lines c [] h refl),
        (all-Reads c h).line (4 * length text + 4) [] finished (omega arith),
      )
      (fits (pool_used c))
  where
    fits :
        (n : ℕ)
        → (if ltb pool_size n then exits else ok c) ≡ (if leb n pool_size then ok c else exits)
    fits n = elim (Bool-cases (leb n pool_size)) [
      | inl y ↦ let z : ltb pool_size n ≡ false = ground (arith, y) in rw (y, z) refl
      | inr y ↦ let z : ltb pool_size n ≡ true = ground (arith, y) in rw (y, z) refl
    ]
