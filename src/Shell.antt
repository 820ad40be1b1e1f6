-- ===== src/Shell.antt =====
-- The parser of the shell (src/user/sh/main.c). Text is the list of its characters up to the NUL behind
-- it, and a pointer into it is what is left from there on. `exits` stands for the end of the shell's child, by
-- PANIC or by malloc1 when its pool is used up.
pub mod Shorter
pub mod Total
pub mod Print
pub mod Lex
pub mod Args
pub mod Text
pub mod RoundTrip
mod Tests
use fdu2024_os_honor_lab.Prelude.{
  ℕ, zero, suc, ◌+◌, ◌*◌, Bool, true, false, not, ◌&&◌, ◌||◌, List, [], ◌∷◌, ◌++◌, ◌==◌,
  if◌then◌else◌, length, leb, ltb,
}

-- How redircmd opens its file: O_RDONLY as descriptor 0, or O_WRONLY | O_CREAT as descriptor 1.
pub data Mode : Type 0 where
  reads writes : Mode

-- `struct cmd`
pub data Cmd : Type 0 where
  exec : List (List ℕ) → Cmd
  redir : Cmd → List ℕ → Mode → Cmd
  pipe : Cmd → Cmd → Cmd
  seq : Cmd → Cmd → Cmd
  back : Cmd → Cmd

pub data Parsed {ℓ} (A : Type ℓ) : Type ℓ where
  ok : A → Parsed A
  exits : Parsed A
  out_of_fuel : Parsed A

infixl 1 ◌>>=◌
abbrev pub ◌>>=◌ {ℓ} : {A B : Type ℓ} → Parsed A → (A → Parsed B) → Parsed B
ok a >>= f = f a
exits >>= f = exits
out_of_fuel >>= f = out_of_fuel

-- MAXARGS
abbrev pub max_args : ℕ
max_args = 10

-- `strchr(whitespace, c)` and `strchr(symbols, c)`
abbrev pub is_space : ℕ → Bool
is_space c = c == b' ' || c == b'\t' || c == 13 || c == b'\n' || c == 11

abbrev pub is_symbol : ℕ → Bool
is_symbol c =
    c == b'<' || c == b'|' || c == b'>' || c == b'&' || c == b';' || c == b'(' || c == b')'

-- The loops of gettoken over blanks and over a word
unfoldable pub skip : List ℕ → List ℕ
skip [] = []
skip (c ∷ cs) = let rest = skip cs in if is_space c then rest else c ∷ cs

abbrev pub in_word : ℕ → Bool
in_word c = not (is_space c) && not (is_symbol c)

unfoldable pub word : List ℕ → List ℕ
word [] = []
word (c ∷ cs) = let rest = word cs in if in_word c then c ∷ rest else []

unfoldable pub drop_word : List ℕ → List ℕ
drop_word [] = []
drop_word (c ∷ cs) = let rest = drop_word cs in if in_word c then rest else c ∷ cs

-- What gettoken gives: its result, the characters from `*q` to `*eq`, and `*ps`.
pub record Token : Type 0 where
  pub ret : ℕ
  pub text : List ℕ
  pub rest : List ℕ

abbrev pub symbol : ℕ → List ℕ → Token
symbol c cs = record { ret = c; text = c ∷ []; rest = skip cs }

-- `case '>'`
abbrev pub greater : List ℕ → Token
greater [] = symbol b'>' []
greater (c ∷ cs) =
    if c == b'>'
    then record { ret = b'+'; text = b'>' ∷ b'>' ∷ []; rest = skip cs }
    else symbol b'>' (c ∷ cs)

-- The switch of gettoken.
unfoldable pub token : List ℕ → Token
token [] = record { ret = 0; text = []; rest = [] }
token (c ∷ cs) =
    if c == b'>'
    then greater cs
    else if is_symbol c
    then symbol c cs
    else record { ret = b'a'; text = word (c ∷ cs); rest = skip (drop_word (c ∷ cs)) }

-- gettoken
abbrev pub gettoken : List ℕ → Token
gettoken ts = token (skip ts)

-- peek, at a place that is no blank; it leaves `*ps` at such a place
abbrev pub one_of : ℕ → List ℕ → Bool
one_of c [] = false
one_of c (t ∷ ts) = c == t || one_of c ts

unfoldable pub looks : List ℕ → List ℕ → Bool
looks toks [] = false
looks toks (c ∷ cs) = one_of c toks

abbrev pub peek : List ℕ → List ℕ → Bool
peek toks ts = looks toks (skip ts)

-- The redirections of a command, the innermost first.
abbrev pub Redirs : Type 0
Redirs = List (Mode × List ℕ)

abbrev pub wrap : Cmd → Redirs → Cmd
wrap c [] = c
wrap c ((m, file) ∷ rs) = wrap (redir c file m) rs

abbrev pub mode_of : ℕ → Mode
mode_of tok = if tok == b'<' then reads else writes

-- parseredirs: the redirections that it puts around its command
unfoldable pub parse_redirs : ℕ → List ℕ → Parsed (Redirs × List ℕ)
parse_redirs zero ts = out_of_fuel
parse_redirs (suc f) ts =
    let tok = gettoken ts in
    let file = gettoken tok.rest in
    let more = parse_redirs f file.rest >>= λ (rs, s). ok ((mode_of tok.ret, file.text) ∷ rs, s) in
    if peek (b'<' ∷ b'>' ∷ []) ts
    then (if file.ret == b'a' then more else exits)
    else ok ([], skip ts)

-- The loop of parseexec, with `argc` arguments so far: the arguments, and the redirections among them
unfoldable pub parse_args : ℕ → ℕ → List ℕ → Parsed ((List (List ℕ) × Redirs) × List ℕ)
parse_args zero argc ts = out_of_fuel
parse_args (suc f) argc ts =
    let tok = gettoken ts in
    let more = parse_redirs (suc (length tok.rest)) tok.rest >>= λ (rs, s).
    parse_args f (argc + 1) s >>= λ ((args, qs), t). ok ((tok.text ∷ args, rs ++ qs), t) in
    if peek (b'|' ∷ b')' ∷ b'&' ∷ b';' ∷ []) ts
    then ok (([], []), skip ts)
    else if tok.ret == 0
    then ok (([], []), tok.rest)
    else if not (tok.ret == b'a')
    then exits
    else if leb max_args (argc + 1)
    then exits
    else more

-- The loop of parseline over `&`
unfoldable pub parse_backs : ℕ → Cmd → List ℕ → Parsed (Cmd × List ℕ)
parse_backs zero c ts = out_of_fuel
parse_backs (suc f) c ts =
    let more = parse_backs f (back c) (gettoken ts).rest in
    if peek (b'&' ∷ []) ts then more else ok (c, skip ts)

unfoldable mutual
  -- parseline
  pub parse_line : ℕ → List ℕ → Parsed (Cmd × List ℕ)
  parse_line zero ts = out_of_fuel
  parse_line (suc f) ts = parse_pipe f ts >>= λ (c, s).
      parse_backs (suc (length s)) c s >>= λ (d, t).
      let more = parse_line f (gettoken t).rest >>= λ (e, u). ok (seq d e, u) in
      if peek (b';' ∷ []) t then more else ok (d, skip t)

  -- parsepipe
  pub parse_pipe : ℕ → List ℕ → Parsed (Cmd × List ℕ)
  parse_pipe zero ts = out_of_fuel
  parse_pipe (suc f) ts = parse_exec f ts >>= λ (c, s).
      let more = parse_pipe f (gettoken s).rest >>= λ (d, t). ok (pipe c d, t) in
      if peek (b'|' ∷ []) s then more else ok (c, skip s)

  -- parseexec
  pub parse_exec : ℕ → List ℕ → Parsed (Cmd × List ℕ)
  parse_exec zero ts = out_of_fuel
  parse_exec (suc f) ts =
      let block = parse_block f ts in
      let simple = parse_redirs (suc (length ts)) ts >>= λ (rs, s).
      parse_args (suc (length s)) 0 s >>= λ ((args, qs), t). ok (wrap (exec args) (rs ++ qs), t) in
      if peek (b'(' ∷ []) ts then block else simple

  -- parseblock
  pub parse_block : ℕ → List ℕ → Parsed (Cmd × List ℕ)
  parse_block zero ts = out_of_fuel
  parse_block (suc f) ts =
      let inner = parse_line f (gettoken ts).rest >>= λ (c, s).
      let close = parse_redirs (suc (length (gettoken s).rest)) (gettoken s).rest >>= λ (rs, t).
      ok (wrap c rs, t) in
      if peek (b')' ∷ []) s then close else exits in
      if peek (b'(' ∷ []) ts then inner else exits

-- The text of a buffer
unfoldable pub until_nul : List ℕ → List ℕ
until_nul [] = []
until_nul (c ∷ cs) = let rest = until_nul cs in if c == 0 then [] else c ∷ rest

-- MAXN
abbrev pub pool_size : ℕ
pool_size = 10000

-- What malloc1 gives out for the nodes of a command: the sizes of `execcmd`, `redircmd`, `pipecmd`, `listcmd` and
-- `backcmd`
unfoldable pub pool_used : Cmd → ℕ
pool_used (exec args) = 168
pool_used (redir c file m) = pool_used c + 40
pool_used (pipe c d) = pool_used c + pool_used d + 24
pool_used (seq c d) = pool_used c + pool_used d + 24
pool_used (back c) = pool_used c + 16

-- The checks of malloc1, all at once: a child parses one command, every node that it allocates is a node of the
-- command, and none is freed, so some check fails exactly when all the nodes do not fit. Where the text has an error as
-- well, the child exits whichever comes first.
unfoldable pub within_pool : Cmd → Parsed Cmd
within_pool c = if ltb pool_size (pool_used c) then exits else ok c

abbrev pub at_end : Cmd → List ℕ → Parsed Cmd
at_end c [] = within_pool c
at_end c (t ∷ ts) = exits

-- parsecmd; nulterminate only marks the ends of the words.
unfoldable pub parse_cmd : List ℕ → Parsed Cmd
parse_cmd buf =
    let ts = until_nul buf in parse_line (4 * length ts + 4) ts >>= λ (c, s). at_end c (skip s)
