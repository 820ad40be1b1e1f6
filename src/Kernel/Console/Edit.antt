-- ===== src/Kernel/Console/Edit.antt =====
-- What editing does to the characters that no reader has taken (src/kernel/console.c): the ring against
-- the list of them and the number that readers may take.
use fdu2024_os_honor_lab.Prelude.{
  ℕ, zero, suc, ◌+◌, ◌-◌, ◌%◌, ◌≡◌, ◌≤◌, ◌⊎◌, ◌∙◌, refl, sym, inl, inr, Bool, true, false, ◌||◌,
  none, some, List, [], ◌∷◌, ◌++◌, ◌==◌, if◌then◌else◌, length, arith, Bool-cases,
}
use fdu2024_os_honor_lab.Kernel.Console.{
  Console, input_buf, backspace, control_u, control_d, control_c, newline, put, rub_out, rub_line,
  is_full, add_char, commit_line, type_char, console_intr,
}
use fdu2024_os_honor_lab.Kernel.Console.Ring.{
  IsRing, Respects, Respects-refl, add_char-Respects, add_char-unread, commit_line-Respects,
  full_test, gap, given, length-chars, length-unread, rub_out-Respects, unread,
}

Respects-trans : {s t u : Console} → Respects s t → Respects t u → Respects s u
Respects-trans {s} {t} {u} p q = record {
  ring = q.ring;
  read = q.read ∙ p.read;
  more = omega (arith, p.more, q.more);
  same = λ n l. rw p.read at (q.same n (omega (arith, l, p.more))) ∙ p.same n l;
}

rub_line-Respects : (f : ℕ) (s : Console) → IsRing s → Respects s (rub_line f s)
unfolding rub_line
rub_line-Respects zero s v = Respects-refl s v
rub_line-Respects (suc f) s v = elim (Bool-cases (s.edit_idx == s.write_idx)) [
  | inl e ↦ rw e (Respects-refl s v)
  | inr e ↦
      let r = rub_out-Respects s v e in
      elim (Bool-cases (s.buf ((s.edit_idx + (input_buf - 1)) % input_buf) == newline)) [
        | inl n ↦ rw (e, n) (Respects-refl s v)
        | inr n ↦ rw (e, n) (Respects-trans r (rub_line-Respects f (rub_out s) r.ring))
      ]
]

-- The test that ends the loop of C('U').
abbrev pub at_stop : Console → Bool
at_stop t =
    (t.edit_idx == t.write_idx) || (t.buf ((t.edit_idx + (input_buf - 1)) % input_buf) == newline)

-- In a well-formed ring the loop of C('U') has ended after as many rounds as there are characters
-- in the line that is edited: at the characters given to readers, or behind a newline.
rub_line_ends :
    (f : ℕ) (s : Console)
    → IsRing s
    → gap s.write_idx s.edit_idx ≤ f
    → at_stop (rub_line f s) ≡ true
unfolding rub_line
rub_line_ends zero s v l = ground (arith, l, v.write, v.edit)
rub_line_ends (suc f) s v l = elim (Bool-cases (s.edit_idx == s.write_idx)) [
  | inl e ↦ rw e (rw e refl)
  | inr e ↦ elim (Bool-cases (s.buf ((s.edit_idx + (input_buf - 1)) % input_buf) == newline)) [
    | inl n ↦ rw (e, n) (rw (e, n) refl)
    | inr n ↦
        rw (e, n)
          (rub_line_ends f (rub_out s) (rub_out-Respects s v e).ring
            (ground (arith, e, l, v.write, v.edit)))
  ]
]

-- Output and the count of kills do not matter.
put-Respects :
    (s : Console) (cs : List ℕ) (k : ℕ) → IsRing s → Respects s (record (put cs s) { kills = k })
put-Respects s cs k v = record {
  ring = record { read = v.read; write = v.write; edit = v.edit; order = v.order };
  read = refl;
  more = omega arith;
  same = λ n l. refl;
}

-- A typed character.
module _ (c : ℕ) (s : Console) (v : IsRing s) where
  abbrev typed : Console
  typed = add_char c s

  typed-Respects : is_full s ≡ false → Respects s (commit_line typed)
  typed-Respects e =
      let r = add_char-Respects s v c e in Respects-trans r (commit_line-Respects typed r.ring)

  -- An ordinary character that fits a well-formed ring stands behind the characters that are not
  -- read, which are given to readers when it ends a line or fills the buffer; nothing given before
  -- changes. When the call does not return, 127 characters are not read.
  type_char_lem :
      ((type_char c s ≡ none) × (length (unread s) ≡ input_buf - 1))
      ⊎ ((t : Console) × (type_char c s ≡ some t)
          × Respects s t
          × (unread t ≡ unread s ++ (c ∷ []))
          × (given t ≡ (
              if (c == newline) || (length (unread t) == (input_buf - 1))
              then length (unread t)
              else given s)))
  unfolding type_char
  type_char_lem = elim (Bool-cases (is_full s)) [
    | inl e ↦ inl (rw e refl, length-unread s v e)
    | inr e ↦
        let r = add_char-Respects s v c e in
        let n = length-chars (gap s.read_idx typed.edit_idx) s.read_idx typed.buf in
        elim (Bool-cases ((c == newline) || is_full typed)) [
          | inl f ↦ inr (
            commit_line typed,
            rw (e, f) refl,
            typed-Respects e,
            add_char-unread s v c e,
            rw (full_test typed r.ring, f) (sym n),
          )
          | inr f ↦ inr (
            typed,
            rw (e, f) refl,
            r,
            add_char-unread s v c e,
            rw (full_test typed r.ring, f) refl,
          )
        ]
  ]

-- Whatever arrives at a well-formed ring, editing keeps it well-formed, and neither moves the
-- reader nor changes or takes back a character that was given to readers; when it does not return,
-- 127 characters are not read.
pub console_intr_lem :
    (may_kill : Bool) (b : ℕ) (s : Console)
    → IsRing s
    → ((console_intr may_kill b s ≡ none) × (length (unread s) ≡ input_buf - 1))
      ⊎ ((t : Console) × (console_intr may_kill b s ≡ some t) × Respects s t)
unfolding console_intr
console_intr_lem may_kill b s v = elim (Bool-cases (b == 255)) [
  | inl e ↦ inr (s, rw e refl, Respects-refl s v)
  | inr e ↦
      let c = if b == 13 then newline else b in
      elim (Bool-cases (c == backspace)) [
        | inl h ↦ elim (Bool-cases (s.edit_idx == s.write_idx)) [
          | inl n ↦ inr (s, rw (e, h, n) refl, Respects-refl s v)
          | inr n ↦ inr (rub_out s, rw (e, h, n) refl, rub_out-Respects s v n)
        ]
        | inr h ↦ elim (Bool-cases (c == control_u)) [
          | inl i ↦ inr (rub_line input_buf s, rw (e, h, i) refl, rub_line-Respects input_buf s v)
          | inr i ↦ elim (Bool-cases (c == control_d)) [
            | inl j ↦ elim (Bool-cases (is_full s)) [
              | inl f ↦ inl (rw (e, h, i, j, f) refl, length-unread s v f)
              | inr f ↦
                  inr (commit_line (add_char c s), rw (e, h, i, j, f) refl, typed-Respects c s v f)
            ]
            | inr j ↦ elim (Bool-cases (c == control_c)) [
              | inl k ↦ elim (Bool-cases may_kill) [
                | inl m ↦ inr (
                  record (put (94 ∷ 67 ∷ []) s) { kills = s.kills + 1 },
                  rw (e, h, i, j, k, m) refl,
                  put-Respects s (94 ∷ 67 ∷ []) (s.kills + 1) v,
                )
                | inr m ↦ inr (
                  put (94 ∷ 67 ∷ []) s,
                  rw (e, h, i, j, k, m) refl,
                  put-Respects s (94 ∷ 67 ∷ []) s.kills v,
                )
              ]
              | inr k ↦ elim (type_char_lem c s v) [
                | inl p ↦ inl (rw (e, h, i, j, k) p.0, p.1)
                | inr p ↦ inr (p.0, rw (e, h, i, j, k) p.1, p.2)
              ]
            ]
          ]
        ]
      ]
]
