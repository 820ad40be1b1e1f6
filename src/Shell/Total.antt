-- ===== src/Shell/Total.antt =====
-- Parsing ends on every input (src/user/sh/main.c), and no command gets more words than it has room for.
use fdu2024_os_honor_lab.Prelude.{
  ltb, Bool-cases, ℕ, zero, suc, ◌+◌, ◌*◌, ◌≡◌, ◌≤◌, ◌<◌, ◌⊎◌, refl, inl, inr, not, List, [], ◌∷◌,
  ◌++◌, ◌==◌, length, leb, arith,
}
use fdu2024_os_honor_lab.Shell.{
  pool_size, pool_used, within_pool, Cmd, exec, redir, pipe, seq, back, Parsed, ok, exits,
  out_of_fuel, ◌>>=◌, max_args, skip, gettoken, peek, Redirs, wrap, parse_redirs, parse_args,
  parse_backs, parse_line, parse_pipe, parse_exec, parse_block, until_nul, at_end, parse_cmd,
}
use fdu2024_os_honor_lab.Shell.Shorter.{
  Fine, Fine-bind, Fine-if, Fine-le, gettoken_le, gettoken_shorter, length-skip, peek_shorter,
}

abbrev Anything : {A : Type 0} → A → Type 0
Anything a = Unit

parse_redirs-Fine :
    (f : ℕ) (ts : List ℕ) → length ts < f → Fine Anything (length ts) (parse_redirs f ts)
unfolding parse_redirs
parse_redirs-Fine zero ts h = ground (arith, h)
parse_redirs-Fine (suc f) ts h =
    let tok = gettoken ts in
    let file = gettoken tok.rest in
    Fine-if Anything (length ts) (peek (b'<' ∷ b'>' ∷ []) ts) _ _
      (λ p.
        Fine-if Anything (length ts) (file.ret == b'a') _ _
          (λ q.
            Fine-bind Anything Anything (length file.rest) (length ts) (parse_redirs f file.rest) _
              (parse_redirs-Fine f file.rest
                (omega (arith, h, gettoken_le tok.rest, peek_shorter (b'<' ∷ b'>' ∷ []) ts p)))
              λ a s pa le. (tt, omega (arith, le, gettoken_le tok.rest, gettoken_le ts)))
          λ q. tt)
      λ p. (tt, length-skip ts)

parse_args-Fine :
    (f argc : ℕ) (ts : List ℕ)
    → length ts < f
    → argc < max_args
    → Fine (λ x. argc + length x.0 < max_args) (length ts) (parse_args f argc ts)
unfolding parse_args
parse_args-Fine zero argc ts h k = ground (arith, h)
parse_args-Fine (suc f) argc ts h k =
    let P : (ℕ → (List (List ℕ) × Redirs) → Type 0) = λ n x. n + length x.0 < max_args in
    let tok = gettoken ts in
    let n = length ts in
    Fine-if (P argc) n (peek (b'|' ∷ b')' ∷ b'&' ∷ b';' ∷ []) ts) _ _
      (λ p. (omega (arith, k), length-skip ts))
      λ p.
        Fine-if (P argc) n (tok.ret == 0) _ _ (λ q. (omega (arith, k), gettoken_le ts))
          λ q.
            Fine-if (P argc) n (not (tok.ret == b'a')) _ _ (λ r. tt)
              λ r.
                Fine-if (P argc) n (leb max_args (argc + 1)) _ _ (λ l. tt)
                  λ l.
                    Fine-bind Anything (P argc) (length tok.rest) n
                      (parse_redirs (suc (length tok.rest)) tok.rest) _
                      (parse_redirs-Fine (suc (length tok.rest)) tok.rest (omega arith))
                      λ rs s a le.
                        Fine-bind (P (argc + 1)) (P argc) (length s) n (parse_args f (argc + 1) s) _
                          (parse_args-Fine f (argc + 1) s
                            (omega (arith, h, le, gettoken_shorter ts q)) (ground (arith, l)))
                          λ x t b le2. (omega (arith, b), omega (arith, le2, le, gettoken_le ts))

-- Every simple command has fewer than MAXARGS words, so that `argv` has room for them and for the null behind them.
abbrev pub IsSmall : Cmd → Type 0
IsSmall (exec args) = length args < max_args
IsSmall (redir c file m) = IsSmall c
IsSmall (pipe c d) = IsSmall c × IsSmall d
IsSmall (seq c d) = IsSmall c × IsSmall d
IsSmall (back c) = IsSmall c

wrap-IsSmall : (c : Cmd) (rs : Redirs) → IsSmall c → IsSmall (wrap c rs)
wrap-IsSmall c [] h = h
wrap-IsSmall c ((m, file) ∷ rs) h = wrap-IsSmall (redir c file m) rs h

parse_backs-Fine :
    (f : ℕ) (c : Cmd) (ts : List ℕ)
    → length ts < f
    → IsSmall c
    → Fine IsSmall (length ts) (parse_backs f c ts)
unfolding parse_backs
parse_backs-Fine zero c ts h k = ground (arith, h)
parse_backs-Fine (suc f) c ts h k =
    Fine-if IsSmall (length ts) (peek (b'&' ∷ []) ts) _ _
      (λ p.
        Fine-le IsSmall _ (length ts) (parse_backs f (back c) (gettoken ts).rest) (gettoken_le ts) (
          parse_backs-Fine f (back c) (gettoken ts).rest
            (omega (arith, h, peek_shorter (b'&' ∷ []) ts p)) k))
      λ p. (k, length-skip ts)

mutual
  unfolding parse_line parse_pipe parse_exec parse_block

  parse_line-Fine :
      (f : ℕ) (ts : List ℕ) → 4 * length ts + 4 ≤ f → Fine IsSmall (length ts) (parse_line f ts)
  parse_line-Fine zero ts h = ground (arith, h)
  parse_line-Fine (suc f) ts h =
      Fine-bind IsSmall IsSmall (length ts) (length ts) (parse_pipe f ts) _
        (parse_pipe-Fine f ts (omega (arith, h)))
        λ c s k le.
          Fine-bind IsSmall IsSmall (length s) (length ts) (parse_backs (suc (length s)) c s) _
            (parse_backs-Fine (suc (length s)) c s (omega arith) k)
            λ d t l le2.
              Fine-if IsSmall (length ts) (peek (b';' ∷ []) t) _ _
                (λ p.
                  Fine-bind IsSmall IsSmall (length (gettoken t).rest) (length ts)
                    (parse_line f (gettoken t).rest) _
                    (parse_line-Fine f (gettoken t).rest
                      (omega (arith, h, le, le2, peek_shorter (b';' ∷ []) t p)))
                    λ e u m le3. ((l, m), omega (arith, le3, le2, le, gettoken_le t)))
                λ p. (l, omega (arith, le, le2, length-skip t))

  parse_pipe-Fine :
      (f : ℕ) (ts : List ℕ) → 4 * length ts + 3 ≤ f → Fine IsSmall (length ts) (parse_pipe f ts)
  parse_pipe-Fine zero ts h = ground (arith, h)
  parse_pipe-Fine (suc f) ts h =
      Fine-bind IsSmall IsSmall (length ts) (length ts) (parse_exec f ts) _
        (parse_exec-Fine f ts (omega (arith, h)))
        λ c s k le.
          Fine-if IsSmall (length ts) (peek (b'|' ∷ []) s) _ _
            (λ p.
              Fine-bind IsSmall IsSmall (length (gettoken s).rest) (length ts)
                (parse_pipe f (gettoken s).rest) _
                (parse_pipe-Fine f (gettoken s).rest
                  (omega (arith, h, le, peek_shorter (b'|' ∷ []) s p)))
                λ d t l le2. ((k, l), omega (arith, le2, le, gettoken_le s)))
            λ p. (k, omega (arith, le, length-skip s))

  parse_exec-Fine :
      (f : ℕ) (ts : List ℕ) → 4 * length ts + 2 ≤ f → Fine IsSmall (length ts) (parse_exec f ts)
  parse_exec-Fine zero ts h = ground (arith, h)
  parse_exec-Fine (suc f) ts h =
      Fine-if IsSmall (length ts) (peek (b'(' ∷ []) ts) _ _
        (λ p. parse_block-Fine f ts (omega (arith, h)))
        λ p.
          Fine-bind Anything IsSmall (length ts) (length ts) (parse_redirs (suc (length ts)) ts) _
            (parse_redirs-Fine (suc (length ts)) ts (omega arith))
            λ rs s a le.
              Fine-bind (λ x. 0 + length x.0 < max_args) IsSmall (length s) (length ts)
                (parse_args (suc (length s)) 0 s) _
                (parse_args-Fine (suc (length s)) 0 s (omega arith) (omega arith))
                λ x t b le2.
                  (wrap-IsSmall (exec x.0) (rs ++ x.1) (omega (arith, b)), omega (arith, le, le2))

  parse_block-Fine :
      (f : ℕ) (ts : List ℕ) → 4 * length ts + 1 ≤ f → Fine IsSmall (length ts) (parse_block f ts)
  parse_block-Fine zero ts h = ground (arith, h)
  parse_block-Fine (suc f) ts h =
      Fine-if IsSmall (length ts) (peek (b'(' ∷ []) ts) _ _
        (λ p.
          Fine-bind IsSmall IsSmall (length (gettoken ts).rest) (length ts)
            (parse_line f (gettoken ts).rest) _
            (parse_line-Fine f (gettoken ts).rest (omega (arith, h, peek_shorter (b'(' ∷ []) ts p)))
            λ c s k le.
              let r = (gettoken s).rest in
              Fine-if IsSmall (length ts) (peek (b')' ∷ []) s) _ _
                (λ q.
                  Fine-bind Anything IsSmall (length r) (length ts)
                    (parse_redirs (suc (length r)) r) _
                    (parse_redirs-Fine (suc (length r)) r (omega arith))
                    λ rs t a le2.
                      (wrap-IsSmall c rs k, omega (arith, le, le2, gettoken_le ts, gettoken_le s)))
                λ q. tt)
        λ p. tt

abbrev Answer : Parsed Cmd → Type 0
Answer r = ((c : Cmd) × (r ≡ ok c) × IsSmall c × (pool_used c ≤ pool_size)) ⊎ (r ≡ exits)

within_pool-Answer : (c : Cmd) → IsSmall c → Answer (within_pool c)
unfolding within_pool
within_pool-Answer c h = elim (Bool-cases (ltb pool_size (pool_used c))) [
  | inl y ↦ inr (rw y refl)
  | inr y ↦ inl (c, rw y refl, h, ground (arith, y))
]

at_end-Answer : (c : Cmd) (ts : List ℕ) → IsSmall c → Answer (at_end c ts)
at_end-Answer c [] h = within_pool-Answer c h
at_end-Answer c (t ∷ ts) h = inr refl

bind-Answer :
    (n : ℕ) (r : Parsed (Cmd × List ℕ))
    → Fine IsSmall n r
    → Answer (r >>= λ (c, s). at_end c (skip s))
bind-Answer n (ok (c, s)) h = at_end-Answer c (skip s) h.0
bind-Answer n exits h = inr refl
bind-Answer n out_of_fuel h = elim h [ ]

-- For every buffer, the fuel that parse_cmd takes is enough: it gives a command whose nodes fit the pool of malloc1
-- and each of whose simple commands has fewer than MAXARGS words, or the child exits.
pub parse_cmd_lem :
    (buf : List ℕ)
    → ((c : Cmd) × (parse_cmd buf ≡ ok c) × IsSmall c × (pool_used c ≤ pool_size))
      ⊎ (parse_cmd buf ≡ exits)
unfolding parse_cmd
parse_cmd_lem buf =
    let ts = until_nul buf in
    bind-Answer (length ts) (parse_line (4 * length ts + 4) ts)
      (parse_line-Fine (4 * length ts + 4) ts (omega arith))
