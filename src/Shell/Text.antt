-- ===== src/Shell/Text.antt =====
-- What printed commands look like: no blank in front, at least what follows them, and no NUL.
use fdu2024_os_honor_lab.Prelude.{
  ℕ, ◌≡◌, ◌≤◌, refl, Bool, true, false, not, ◌&&◌, List, [], ◌∷◌, ◌++◌, ◌==◌, length, arith,
  length-append,
}
use fdu2024_os_honor_lab.Shell.{
  Cmd, exec, redir, pipe, seq, back, Mode, reads, writes, skip, until_nul,
}
use fdu2024_os_honor_lab.Shell.Print.{
  Level, takes_pipe, takes_seq, takes_back, lines, backs, pipes, single, guarded, print_args, arrow,
  print, IsWord, AreWords, IsTyped, all_plain,
}
use fdu2024_os_honor_lab.Shell.Lex.{skip_word, skip_symbol}

skip-arrow : (m : Mode) (t : List ℕ) → skip (arrow m ∷ t) ≡ arrow m ∷ t
unfolding skip
skip-arrow reads t = refl
skip-arrow writes t = refl

skip-guarded :
    (b : Bool) (body : List ℕ → List ℕ) (t : List ℕ)
    → skip (body t) ≡ body t
    → skip (guarded b body t) ≡ guarded b body t
unfolding skip
skip-guarded true body t h = h
skip-guarded false body t h = refl

-- A printed command does not start with a blank.
pub skip-print :
    (k : Level) (c : Cmd) (t : List ℕ) → IsTyped c → skip t ≡ t → skip (print k c t) ≡ print k c t
skip-print k (exec []) t h e = e
skip-print k (exec (w ∷ ws)) t h e = skip_word w (b' ' ∷ print_args ws t) h.1.0
skip-print k (redir c file m) t h e =
    skip-print single c (arrow m ∷ (file ++ t)) h.0 (skip-arrow m (file ++ t))
skip-print k (pipe c d) t h e =
    skip-guarded (takes_pipe k) (λ u. print single c (b'|' ∷ print pipes d u)) t
      (skip-print single c (b'|' ∷ print pipes d t) h.0 (skip_symbol b'|' (print pipes d t) refl))
skip-print k (seq c d) t h e =
    skip-guarded (takes_seq k) (λ u. print backs c (b';' ∷ print lines d u)) t
      (skip-print backs c (b';' ∷ print lines d t) h.0 (skip_symbol b';' (print lines d t) refl))
skip-print k (back c) t h e =
    skip-guarded (takes_back k) (λ u. print backs c (b'&' ∷ u)) t
      (skip-print backs c (b'&' ∷ t) h (skip_symbol b'&' t refl))

guarded_longer :
    (b : Bool) (body : List ℕ → List ℕ) (t : List ℕ)
    → ((u : List ℕ) → length u ≤ length (body u))
    → length t ≤ length (guarded b body t)
guarded_longer true body t h = h t
guarded_longer false body t h = omega (arith, h (b')' ∷ t))

pub print_longer : (k : Level) (c : Cmd) (t : List ℕ) → length t ≤ length (print k c t)
print_longer k (exec []) t = omega arith
print_longer k (exec (w ∷ ws)) t =
    omega (arith, length-append w (b' ' ∷ print_args ws t), print_longer k (exec ws) t)
print_longer k (redir c file m) t =
    omega (arith, length-append file t, print_longer single c (arrow m ∷ (file ++ t)))
print_longer k (pipe c d) t =
    guarded_longer (takes_pipe k) (λ u. print single c (b'|' ∷ print pipes d u)) t
      λ u. omega (arith, print_longer single c (b'|' ∷ print pipes d u), print_longer pipes d u)
print_longer k (seq c d) t =
    guarded_longer (takes_seq k) (λ u. print backs c (b';' ∷ print lines d u)) t
      λ u. omega (arith, print_longer backs c (b';' ∷ print lines d u), print_longer lines d u)
print_longer k (back c) t =
    guarded_longer (takes_back k) (λ u. print backs c (b'&' ∷ u)) t
      λ u. omega (arith, print_longer backs c (b'&' ∷ u))

abbrev pub no_nul : List ℕ → Bool
no_nul [] = true
no_nul (c ∷ cs) = not (c == 0) && no_nul cs

no_nul-word : (w t : List ℕ) → all_plain w ≡ true → no_nul t ≡ true → no_nul (w ++ t) ≡ true
no_nul-word [] t h e = e
no_nul-word (c ∷ w) t h e = ground (arith, h, no_nul-word w t (ground (arith, h)) e)

no_nul-file : (w t : List ℕ) → IsWord w → no_nul t ≡ true → no_nul (w ++ t) ≡ true
no_nul-file [] t h e = e
no_nul-file (c ∷ w) t h e = no_nul-word (c ∷ w) t (ground (arith, h.0, h.1)) e

no_nul-args :
    (ws : List (List ℕ)) (t : List ℕ)
    → AreWords ws
    → no_nul t ≡ true
    → no_nul (print_args ws t) ≡ true
no_nul-args [] t h e = e
no_nul-args (w ∷ ws) t h e = no_nul-file w (b' ' ∷ print_args ws t) h.0 (no_nul-args ws t h.1 e)

no_nul-guarded :
    (b : Bool) (body : List ℕ → List ℕ) (t : List ℕ)
    → ((u : List ℕ) → no_nul u ≡ true → no_nul (body u) ≡ true)
    → no_nul t ≡ true
    → no_nul (guarded b body t) ≡ true
no_nul-guarded true body t h e = h t e
no_nul-guarded false body t h e = h (b')' ∷ t) e

pub no_nul-print :
    (k : Level) (c : Cmd) (t : List ℕ) → IsTyped c → no_nul t ≡ true → no_nul (print k c t) ≡ true
no_nul-print k (exec args) t h e = no_nul-args args t h.1 e
no_nul-print k (redir c file reads) t h e =
    no_nul-print single c (b'<' ∷ (file ++ t)) h.0 (no_nul-file file t h.1 e)
no_nul-print k (redir c file writes) t h e =
    no_nul-print single c (b'>' ∷ (file ++ t)) h.0 (no_nul-file file t h.1 e)
no_nul-print k (pipe c d) t h e =
    no_nul-guarded (takes_pipe k) (λ u. print single c (b'|' ∷ print pipes d u)) t
      (λ u p. no_nul-print single c (b'|' ∷ print pipes d u) h.0 (no_nul-print pipes d u h.1 p)) e
no_nul-print k (seq c d) t h e =
    no_nul-guarded (takes_seq k) (λ u. print backs c (b';' ∷ print lines d u)) t
      (λ u p. no_nul-print backs c (b';' ∷ print lines d u) h.0 (no_nul-print lines d u h.1 p)) e
no_nul-print k (back c) t h e =
    no_nul-guarded (takes_back k) (λ u. print backs c (b'&' ∷ u)) t
      (λ u p. no_nul-print backs c (b'&' ∷ u) h p) e

pub until_nul-text :
    (text junk : List ℕ) → no_nul text ≡ true → until_nul (text ++ (0 ∷ junk)) ≡ text
unfolding until_nul
until_nul-text [] junk h = refl
until_nul-text (c ∷ cs) junk h =
    let other : c == 0 ≡ false = ground (arith, h) in
    rw (until_nul-text cs junk (ground (arith, h)), other) refl
