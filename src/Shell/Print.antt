-- ===== src/Shell/Print.antt =====
-- Text that stands for a command of the shell (src/user/sh/main.c): a printer, to state what the parser reads back.
use fdu2024_os_honor_lab.Prelude.{
  ℕ, ◌≡◌, ◌<◌, Bool, true, false, not, ◌&&◌, List, [], ◌∷◌, ◌++◌, ◌==◌, length,
}
use fdu2024_os_honor_lab.Shell.{
  Cmd, exec, redir, pipe, seq, back, Mode, reads, writes, max_args, in_word, Redirs,
}

-- What the text is part of: a line, a command with `&`s behind it, a pipeline or a single command.
pub data Level : Type 0 where
  lines backs pipes single : Level

abbrev pub takes_back : Level → Bool
takes_back lines = true
takes_back backs = true
takes_back pipes = false
takes_back single = false

abbrev pub takes_seq : Level → Bool
takes_seq lines = true
takes_seq backs = false
takes_seq pipes = false
takes_seq single = false

abbrev pub takes_pipe : Level → Bool
takes_pipe lines = true
takes_pipe backs = true
takes_pipe pipes = true
takes_pipe single = false

-- A text in front of `t`, in parentheses where the level asks for them
abbrev pub guarded : Bool → (List ℕ → List ℕ) → List ℕ → List ℕ
guarded true body t = body t
guarded false body t = b'(' ∷ body (b')' ∷ t)

abbrev pub print_args : List (List ℕ) → List ℕ → List ℕ
print_args [] t = t
print_args (w ∷ ws) t = w ++ (b' ' ∷ print_args ws t)

abbrev pub arrow : Mode → ℕ
arrow reads = b'<'
arrow writes = b'>'

abbrev pub print_redirs : Redirs → List ℕ → List ℕ
print_redirs [] t = t
print_redirs ((m, file) ∷ rs) t = arrow m ∷ (file ++ print_redirs rs t)

-- The text of a command in front of `t`
abbrev pub print : Level → Cmd → List ℕ → List ℕ
print k (exec args) t = print_args args t
print k (redir c file m) t = print single c (arrow m ∷ (file ++ t))
print k (pipe c d) t = guarded (takes_pipe k) (λ u. print single c (b'|' ∷ print pipes d u)) t
print k (seq c d) t = guarded (takes_seq k) (λ u. print backs c (b';' ∷ print lines d u)) t
print k (back c) t = guarded (takes_back k) (λ u. print backs c (b'&' ∷ u)) t

abbrev pub print_cmd : Cmd → List ℕ
print_cmd c = print lines c []

-- A word of the shell: at least one character, and none that is a blank, a symbol or NUL
abbrev pub is_plain : ℕ → Bool
is_plain c = in_word c && not (c == 0)

abbrev pub all_plain : List ℕ → Bool
all_plain [] = true
all_plain (c ∷ cs) = is_plain c && all_plain cs

abbrev pub IsWord : List ℕ → Type 0
IsWord [] = ⊥
IsWord (c ∷ cs) = (is_plain c ≡ true) × (all_plain cs ≡ true)

abbrev pub AreWords : List (List ℕ) → Type 0
AreWords [] = Unit
AreWords (w ∷ ws) = IsWord w × AreWords ws

abbrev pub AreFiles : Redirs → Type 0
AreFiles [] = Unit
AreFiles ((m, file) ∷ rs) = IsWord file × AreFiles rs

-- A command that can be typed: its arguments and files are words, and no simple command has too many.
abbrev pub IsTyped : Cmd → Type 0
IsTyped (exec args) = (length args < max_args) × AreWords args
IsTyped (redir c file m) = IsTyped c × IsWord file
IsTyped (pipe c d) = IsTyped c × IsTyped d
IsTyped (seq c d) = IsTyped c × IsTyped d
IsTyped (back c) = IsTyped c
