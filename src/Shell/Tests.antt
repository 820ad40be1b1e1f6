-- ===== src/Shell/Tests.antt =====
-- `ls|wc>f;a&` and a line with a missing parenthesis.
use fdu2024_os_honor_lab.Prelude.{
  ℕ, ◌≡◌, ◌≤◌, ◌⊎◌, leb, if◌then◌else◌, refl, List, [], ◌∷◌, ◌++◌, arith,
}
use fdu2024_os_honor_lab.Shell.{
  pool_size, pool_used, Cmd, exec, redir, pipe, seq, back, writes, ok, exits, parse_cmd, parse_line,
  parse_pipe, parse_exec, parse_block, parse_args, parse_redirs, parse_backs, skip, word, drop_word,
  token, looks, until_nul,
}
use fdu2024_os_honor_lab.Shell.Total.{IsSmall, parse_cmd_lem}
use fdu2024_os_honor_lab.Shell.Print.{print_cmd, IsTyped}
use fdu2024_os_honor_lab.Shell.RoundTrip.{parse_cmd-print}

abbrev line : Cmd
line =
    seq
      (pipe (exec ((b'l' ∷ b's' ∷ []) ∷ []))
        (redir (exec ((b'w' ∷ b'c' ∷ []) ∷ [])) (b'f' ∷ []) writes))
      (back (exec ((b'a' ∷ []) ∷ [])))

line-IsTyped : IsTyped line
line-IsTyped = (
  ((omega arith, ((refl, refl), tt)), ((omega arith, ((refl, refl), tt)), (refl, refl))),
  (omega arith, ((refl, refl), tt)),
)

parse_cmd-print_example :
    parse_cmd (print_cmd line ++ (0 ∷ b'x' ∷ []))
    ≡ (if leb (pool_used line) pool_size then ok line else exits)
parse_cmd-print_example = parse_cmd-print line (b'x' ∷ []) line-IsTyped

abbrev unclosed : List ℕ
unclosed = b'(' ∷ b'l' ∷ b's' ∷ b';' ∷ 0 ∷ []

parse_cmd_lem_example :
    ((c : Cmd) × (parse_cmd unclosed ≡ ok c) × IsSmall c × (pool_used c ≤ pool_size))
    ⊎ (parse_cmd unclosed ≡ exits)
parse_cmd_lem_example = parse_cmd_lem unclosed

unclosed_refused : parse_cmd unclosed ≡ exits
unfolding parse_cmd parse_line parse_pipe parse_exec parse_block parse_args parse_redirs parse_backs
    skip word drop_word token looks until_nul
unclosed_refused = refl
