-- ===== src/Shell/Lex.antt =====
-- What gettoken, peek and parseredirs (src/user/sh/main.c) do with printed text.
use fdu2024_os_honor_lab.Prelude.{
  ℕ, zero, suc, ◌≡◌, ◌≤◌, ◌<◌, refl, true, false, List, [], ◌∷◌, ◌++◌, ◌==◌, length, arith,
  length-append,
}
use fdu2024_os_honor_lab.Shell.{
  Mode, reads, writes, ok, is_symbol, skip, in_word, word, drop_word, token, gettoken, looks, peek,
  Redirs, parse_redirs, one_of, mode_of,
}
use fdu2024_os_honor_lab.Shell.Print.{
  print_args, arrow, print_redirs, is_plain, all_plain, IsWord, AreFiles,
}

-- Text that does not continue a word
abbrev pub Breaks : List ℕ → Type 0
Breaks [] = Unit
Breaks (c ∷ cs) = in_word c ≡ false

-- What can stand behind a line, behind a pipeline and behind a single command
pub data LineEnd : List ℕ → Type 0 where
  finished : LineEnd []
  closed : (cs : List ℕ) → LineEnd (b')' ∷ cs)

pub data PipeEnd : List ℕ → Type 0 where
  line_end : (t : List ℕ) → LineEnd t → PipeEnd t
  semi : (cs : List ℕ) → PipeEnd (b';' ∷ cs)
  amp : (cs : List ℕ) → PipeEnd (b'&' ∷ cs)

pub data SingleEnd : List ℕ → Type 0 where
  pipe_end : (t : List ℕ) → PipeEnd t → SingleEnd t
  bar : (cs : List ℕ) → SingleEnd (b'|' ∷ cs)

word_lem : (w r : List ℕ) → all_plain w ≡ true → Breaks r → word (w ++ r) ≡ w
unfolding word
word_lem [] [] p b = refl
word_lem [] (c ∷ cs) p b = ground (arith, b)
word_lem (c ∷ w) r p b = rw (word_lem w r (ground (arith, p)) b) (ground (arith, p))

drop_word_lem : (w r : List ℕ) → all_plain w ≡ true → Breaks r → drop_word (w ++ r) ≡ r
unfolding drop_word
drop_word_lem [] [] p b = refl
drop_word_lem [] (c ∷ cs) p b = ground (arith, b)
drop_word_lem (c ∷ w) r p b = rw (drop_word_lem w r (ground (arith, p)) b) (ground (arith, p))

skip_plain : (c : ℕ) (cs : List ℕ) → is_plain c ≡ true → skip (c ∷ cs) ≡ c ∷ cs
unfolding skip
skip_plain c cs p = ground (arith, p)

token_plain :
    (c : ℕ) (cs : List ℕ)
    → is_plain c ≡ true
    → token (c ∷ cs) ≡ record { ret = b'a'; text = word (c ∷ cs); rest = skip (drop_word (c ∷ cs)) }
unfolding token
token_plain c cs p = ground (arith, p)

-- gettoken takes a word.
pub gettoken_word :
    (w r : List ℕ)
    → IsWord w
    → Breaks r
    → gettoken (w ++ r) ≡ record { ret = b'a'; text = w; rest = skip r }
gettoken_word [] r h b = elim h [ ]
gettoken_word (c ∷ w) r h b =
    let whole : all_plain (c ∷ w) ≡ true = ground (arith, h.0, h.1) in
    rw
      (
        skip_plain c (w ++ r) h.0,
        token_plain c (w ++ r) h.0,
        word_lem (c ∷ w) r whole b,
        drop_word_lem (c ∷ w) r whole b,
      )
      refl

-- peek finds none of its characters before a word, when they are symbols.
pub peek_word :
    (toks w r : List ℕ)
    → ((c : ℕ) → is_plain c ≡ true → one_of c toks ≡ false)
    → IsWord w
    → peek toks (w ++ r) ≡ false
unfolding looks
peek_word toks [] r none_of h = elim h [ ]
peek_word toks (c ∷ w) r none_of h = rw (skip_plain c (w ++ r) h.0) (none_of c h.0)

pub skip_word : (w r : List ℕ) → IsWord w → skip (w ++ r) ≡ w ++ r
skip_word [] r h = elim h [ ]
skip_word (c ∷ w) r h = skip_plain c (w ++ r) h.0

pub skip_end : (t : List ℕ) → SingleEnd t → skip t ≡ t
unfolding skip
skip_end _ (pipe_end _ (line_end _ finished)) = refl
skip_end _ (pipe_end _ (line_end _ (closed cs))) = refl
skip_end _ (pipe_end _ (semi cs)) = refl
skip_end _ (pipe_end _ (amp cs)) = refl
skip_end _ (bar cs) = refl

end-Breaks : (t : List ℕ) → SingleEnd t → Breaks t
end-Breaks _ (pipe_end _ (line_end _ finished)) = tt
end-Breaks _ (pipe_end _ (line_end _ (closed cs))) = refl
end-Breaks _ (pipe_end _ (semi cs)) = refl
end-Breaks _ (pipe_end _ (amp cs)) = refl
end-Breaks _ (bar cs) = refl

peek_no_redir : (t : List ℕ) → SingleEnd t → peek (b'<' ∷ b'>' ∷ []) t ≡ false
unfolding skip looks
peek_no_redir _ (pipe_end _ (line_end _ finished)) = refl
peek_no_redir _ (pipe_end _ (line_end _ (closed cs))) = refl
peek_no_redir _ (pipe_end _ (semi cs)) = refl
peek_no_redir _ (pipe_end _ (amp cs)) = refl
peek_no_redir _ (bar cs) = refl

pub peek_no_block : (t : List ℕ) → SingleEnd t → peek (b'(' ∷ []) t ≡ false
unfolding skip looks
peek_no_block _ (pipe_end _ (line_end _ finished)) = refl
peek_no_block _ (pipe_end _ (line_end _ (closed cs))) = refl
peek_no_block _ (pipe_end _ (semi cs)) = refl
peek_no_block _ (pipe_end _ (amp cs)) = refl
peek_no_block _ (bar cs) = refl

pub peek_no_pipe : (t : List ℕ) → PipeEnd t → peek (b'|' ∷ []) t ≡ false
unfolding skip looks
peek_no_pipe _ (line_end _ finished) = refl
peek_no_pipe _ (line_end _ (closed cs)) = refl
peek_no_pipe _ (semi cs) = refl
peek_no_pipe _ (amp cs) = refl

pub peek_no_amp : (t : List ℕ) → LineEnd t → peek (b'&' ∷ []) t ≡ false
unfolding skip looks
peek_no_amp _ finished = refl
peek_no_amp _ (closed cs) = refl

pub peek_no_semi : (t : List ℕ) → LineEnd t → peek (b';' ∷ []) t ≡ false
unfolding skip looks
peek_no_semi _ finished = refl
peek_no_semi _ (closed cs) = refl

-- A symbol, which peek finds and gettoken takes
pub skip_symbol : (c : ℕ) (cs : List ℕ) → is_symbol c ≡ true → skip (c ∷ cs) ≡ c ∷ cs
unfolding skip
skip_symbol c cs p = ground (arith, p)

pub peek_symbol : (c : ℕ) (cs : List ℕ) → is_symbol c ≡ true → peek (c ∷ []) (c ∷ cs) ≡ true
unfolding looks
peek_symbol c cs p = rw (skip_symbol c cs p) (ground arith)

pub peek_other :
    (d c : ℕ) (cs : List ℕ) → is_symbol c ≡ true → c == d ≡ false → peek (d ∷ []) (c ∷ cs) ≡ false
unfolding looks
peek_other d c cs p q = rw (skip_symbol c cs p) (ground (arith, q))

pub gettoken_symbol :
    (c : ℕ) (cs : List ℕ)
    → is_symbol c ≡ true
    → c == b'>' ≡ false
    → gettoken (c ∷ cs) ≡ record { ret = c; text = c ∷ []; rest = skip cs }
unfolding token
gettoken_symbol c cs p q = rw (skip_symbol c cs p) (ground (arith, p, q))

-- What gettoken takes in front of a place that is no blank
pub gettoken-arrow :
    (m : Mode) (w r : List ℕ)
    → IsWord w
    → gettoken (arrow m ∷ (w ++ r)) ≡ record { ret = arrow m; text = arrow m ∷ []; rest = w ++ r }
unfolding skip token
gettoken-arrow m [] r h = elim h [ ]
gettoken-arrow reads (c ∷ w) r h = rw (skip_plain c (w ++ r) h.0) refl
gettoken-arrow writes (c ∷ w) r h =
    let other : c == b'>' ≡ false = ground (arith, h.0) in
    rw (other, skip_plain c (w ++ r) h.0) refl

redirs-Breaks : (rs : Redirs) (t : List ℕ) → SingleEnd t → Breaks (print_redirs rs t)
redirs-Breaks [] t e = end-Breaks t e
redirs-Breaks ((reads, file) ∷ rs) t e = refl
redirs-Breaks ((writes, file) ∷ rs) t e = refl

pub skip_redirs :
    (rs : Redirs) (t : List ℕ) → SingleEnd t → skip (print_redirs rs t) ≡ print_redirs rs t
unfolding skip
skip_redirs [] t e = skip_end t e
skip_redirs ((reads, file) ∷ rs) t e = refl
skip_redirs ((writes, file) ∷ rs) t e = refl

peek_redir : (m : Mode) (cs : List ℕ) → peek (b'<' ∷ b'>' ∷ []) (arrow m ∷ cs) ≡ true
unfolding skip looks
peek_redir reads cs = refl
peek_redir writes cs = refl

mode-arrow : (m : Mode) → mode_of (arrow m) ≡ m
mode-arrow reads = refl
mode-arrow writes = refl

pub parse_redirs-print :
    (f : ℕ) (rs : Redirs) (t : List ℕ)
    → length rs < f
    → AreFiles rs
    → SingleEnd t
    → parse_redirs f (print_redirs rs t) ≡ ok (rs, t)
unfolding parse_redirs
parse_redirs-print zero rs t h k e = ground (arith, h)
parse_redirs-print (suc f) [] t h k e = rw (peek_no_redir t e, skip_end t e) refl
parse_redirs-print (suc f) ((m, file) ∷ rs) t h k e =
    let r = print_redirs rs t in
    rw
      (
        peek_redir m (file ++ r),
        gettoken-arrow m file r k.0,
        gettoken_word file r k.0 (redirs-Breaks rs t e),
        skip_redirs rs t e,
        parse_redirs-print f rs t (omega (arith, h)) k.1 e,
        mode-arrow m,
      )
      refl

pub length-redirs : (rs : Redirs) (t : List ℕ) → length rs ≤ length (print_redirs rs t)
length-redirs [] t = omega arith
length-redirs ((m, file) ∷ rs) t =
    omega (arith, length-redirs rs t, length-append file (print_redirs rs t))

pub length-args : (ws : List (List ℕ)) (t : List ℕ) → length ws ≤ length (print_args ws t)
length-args [] t = omega arith
length-args (w ∷ ws) t = omega (arith, length-args ws t, length-append w (b' ' ∷ print_args ws t))
