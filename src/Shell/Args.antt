-- ===== src/Shell/Args.antt =====
-- What parseexec (src/user/sh/main.c) does with a printed command that is not a block.
use fdu2024_os_honor_lab.Prelude.{
  ℕ, zero, suc, ◌+◌, ◌≡◌, ◌<◌, refl, false, List, [], ◌∷◌, ◌++◌, length, leb, arith, length-append,
}
use mathlib.Core.List.{append-nil}
use fdu2024_os_honor_lab.Shell.{
  reads, writes, exec, ok, max_args, skip, looks, peek, Redirs, wrap, token, parse_redirs,
  parse_args, parse_exec,
}
use fdu2024_os_honor_lab.Shell.Print.{print_args, print_redirs, IsWord, AreWords, AreFiles}
use fdu2024_os_honor_lab.Shell.Lex.{
  SingleEnd, pipe_end, bar, line_end, semi, amp, finished, closed, gettoken_word, peek_word,
  skip_word, peek_no_block, skip_redirs, parse_redirs-print, length-redirs, length-args,
}

parse_args-stop :
    (g argc : ℕ) (t : List ℕ) → SingleEnd t → parse_args (suc g) argc t ≡ ok (([], []), t)
unfolding parse_args skip looks token
parse_args-stop g argc _ (pipe_end _ (line_end _ finished)) = refl
parse_args-stop g argc _ (pipe_end _ (line_end _ (closed cs))) = refl
parse_args-stop g argc _ (pipe_end _ (semi cs)) = refl
parse_args-stop g argc _ (pipe_end _ (amp cs)) = refl
parse_args-stop g argc _ (bar cs) = refl

skip_args :
    (ws : List (List ℕ)) (rs : Redirs) (t : List ℕ)
    → AreWords ws
    → SingleEnd t
    → skip (b' ' ∷ print_args ws (print_redirs rs t)) ≡ print_args ws (print_redirs rs t)
unfolding skip
skip_args [] rs t h e = skip_redirs rs t e
skip_args (w ∷ ws) rs t h e = skip_word w (b' ' ∷ print_args ws (print_redirs rs t)) h.0

parse_redirs-word :
    (f : ℕ) (w r : List ℕ) → IsWord w → parse_redirs (suc f) (w ++ r) ≡ ok ([], w ++ r)
unfolding parse_redirs
parse_redirs-word f w r h =
    rw (peek_word (b'<' ∷ b'>' ∷ []) w r (λ c p. ground (arith, p)) h, skip_word w r h) refl

redirs_no_block :
    (rs : Redirs) (t : List ℕ) → SingleEnd t → peek (b'(' ∷ []) (print_redirs rs t) ≡ false
unfolding skip looks
redirs_no_block [] t e = peek_no_block t e
redirs_no_block ((reads, file) ∷ rs) t e = refl
redirs_no_block ((writes, file) ∷ rs) t e = refl

parse_args-print :
    (g argc : ℕ) (w : List ℕ) (ws : List (List ℕ)) (rs : Redirs) (t : List ℕ)
    → length ws < g
    → argc + suc (length ws) < max_args
    → AreWords (w ∷ ws)
    → AreFiles rs
    → SingleEnd t
    → parse_args (suc g) argc (print_args (w ∷ ws) (print_redirs rs t)) ≡ ok ((w ∷ ws, rs), t)
unfolding parse_args
parse_args-print zero argc w ws rs t h k a b e = ground (arith, h)
parse_args-print (suc g) argc w [] rs t h k a b e =
    let r = print_redirs rs t in
    let room : leb max_args (argc + 1) ≡ false = ground (arith, k) in
    rw
      (
        peek_word (b'|' ∷ b')' ∷ b'&' ∷ b';' ∷ []) w (b' ' ∷ r) (λ c p. ground (arith, p)) a.0,
        gettoken_word w (b' ' ∷ r) a.0 refl,
        skip_args [] rs t a.1 e,
        room,
        parse_redirs-print (suc (length r)) rs t (omega (arith, length-redirs rs t)) b e,
        parse_args-stop g (argc + 1) t e,
        append-nil rs,
      )
      refl
parse_args-print (suc g) argc w (v ∷ ws) rs t h k a b e =
    let r = print_args (v ∷ ws) (print_redirs rs t) in
    let room : leb max_args (argc + 1) ≡ false = ground (arith, k) in
    rw
      (
        peek_word (b'|' ∷ b')' ∷ b'&' ∷ b';' ∷ []) w (b' ' ∷ r) (λ c p. ground (arith, p)) a.0,
        gettoken_word w (b' ' ∷ r) a.0 refl,
        skip_args (v ∷ ws) rs t a.1 e,
        room,
        parse_redirs-word (length r) v (b' ' ∷ print_args ws (print_redirs rs t)) a.1.0,
        parse_args-print g (argc + 1) v ws rs t (omega (arith, h)) (omega (arith, k)) a.1 b e,
      )
      refl

-- The command that parseexec reads off its arguments and the redirections behind them
pub parse_exec-simple :
    (f : ℕ) (args : List (List ℕ)) (rs : Redirs) (t : List ℕ)
    → length args < max_args
    → AreWords args
    → AreFiles rs
    → SingleEnd t
    → parse_exec (suc f) (print_args args (print_redirs rs t)) ≡ ok (wrap (exec args) rs, t)
unfolding parse_exec
parse_exec-simple f [] rs t k a b e =
    let r = print_redirs rs t in
    rw
      (
        redirs_no_block rs t e,
        parse_redirs-print (suc (length r)) rs t (omega (arith, length-redirs rs t)) b e,
        parse_args-stop (length t) 0 t e,
        append-nil rs,
      )
      refl
parse_exec-simple f (w ∷ ws) rs t k a b e =
    let r = b' ' ∷ print_args ws (print_redirs rs t) in
    rw
      (
        peek_word (b'(' ∷ []) w r (λ c p. ground (arith, p)) a.0,
        parse_redirs-word (length (w ++ r)) w r a.0,
        parse_args-print (length (w ++ r)) 0 w ws rs t
            (omega (arith, length-args ws (print_redirs rs t), length-append w r))
            (omega (arith, k)) a b e,
      )
      refl
