-- ===== src/Kernel/Console/Ring.antt =====
-- The buffer of the console as a ring (src/kernel/console.c).
use fdu2024_os_honor_lab.Prelude.{
  ℕ, zero, suc, ◌+◌, ◌-◌, ◌%◌, ◌≡◌, ◌≤◌, ◌<◌, ◌∙◌, refl, sym, ap, inl, inr, true, false, List, [],
  ◌∷◌, ◌++◌, ◌==◌, length, arith, Bool-cases,
}
use fdu2024_os_honor_lab.Kernel.Mem.{put_at}
use fdu2024_os_honor_lab.Kernel.Console.{
  Console, input_buf, rub_out, is_full, add_char, commit_line,
}

-- `n` characters behind index `i`
abbrev pub chars : ℕ → ℕ → (ℕ → ℕ) → List ℕ
chars zero i b = []
chars (suc n) i b = b ((i + 1) % input_buf) ∷ chars n ((i + 1) % input_buf) b

-- How far index `j` is behind index `i`.
abbrev pub gap : ℕ → ℕ → ℕ
gap i j = (j + input_buf - i) % input_buf

-- The characters that are not read, and how many of them are given to readers.
abbrev pub unread : Console → List ℕ
unread s = chars (gap s.read_idx s.edit_idx) s.read_idx s.buf

abbrev pub given : Console → ℕ
given s = gap s.read_idx s.write_idx

chars-last :
    (n i : ℕ) (b : ℕ → ℕ)
    → i < input_buf
    → chars (suc n) i b ≡ chars n i b ++ (b ((i + n + 1) % input_buf) ∷ [])
chars-last zero i b l =
    let p : i + 0 + 1 ≡ i + 1 = omega arith in ap (λ x. b (x % input_buf) ∷ []) (sym p)
chars-last (suc n) i b l =
    let p : ((i + 1) % input_buf + n + 1) % input_buf ≡ (i + suc n + 1) % input_buf = omega arith in
    ap (λ xs. b ((i + 1) % input_buf) ∷ xs)
      (chars-last n ((i + 1) % input_buf) b (omega arith)
        ∙ ap (λ x. chars n ((i + 1) % input_buf) b ++ (b x ∷ [])) p)

chars-put_at :
    (n i k c : ℕ) (b : ℕ → ℕ)
    → i < input_buf
    → k < input_buf
    → n < gap i k
    → chars n i (put_at k c b) ≡ chars n i b
chars-put_at zero i k c b l m h = refl
chars-put_at (suc n) i k c b l m h =
    let e : (k == ((i + 1) % input_buf)) ≡ false = ground (arith, l, m, h) in
    rw e (
      ap (λ xs. b ((i + 1) % input_buf) ∷ xs)
        (chars-put_at n ((i + 1) % input_buf) k c b (omega arith) m (omega (arith, l, m, h))))

pub length-chars : (n i : ℕ) (b : ℕ → ℕ) → length (chars n i b) ≡ n
length-chars zero i b = refl
length-chars (suc n) i b = omega (arith, length-chars n ((i + 1) % input_buf) b)

-- The indices are in the ring, and the characters given to readers are among those that are not read.
pub record IsRing (s : Console) : Type 0 where
  pub read : s.read_idx < input_buf
  pub write : s.write_idx < input_buf
  pub edit : s.edit_idx < input_buf
  pub order : given s ≤ gap s.read_idx s.edit_idx

-- What editing must respect: the ring, the reader's index, and the characters given to readers.
pub record Respects (s t : Console) : Type 0 where
  pub ring : IsRing t
  pub read : t.read_idx ≡ s.read_idx
  pub more : given s ≤ given t
  pub same : (n : ℕ) → n ≤ given s → chars n s.read_idx t.buf ≡ chars n s.read_idx s.buf

pub Respects-refl : (s : Console) → IsRing s → Respects s s
Respects-refl s v = record { ring = v; read = refl; more = omega arith; same = λ n l. refl }

pub length-unread : (s : Console) → IsRing s → is_full s ≡ true → length (unread s) ≡ input_buf - 1
length-unread s v e =
    length-chars (gap s.read_idx s.edit_idx) s.read_idx s.buf ∙ ground (arith, e, v.read, v.edit)

-- The buffer is full with 127 characters.
pub full_test : (s : Console) → IsRing s → (length (unread s) == (input_buf - 1)) ≡ is_full s
full_test s v =
    rw (length-chars (gap s.read_idx s.edit_idx) s.read_idx s.buf) (elim (Bool-cases (is_full s)) [
      | inl e ↦ rw e (ground (arith, e, v.read, v.edit))
      | inr e ↦ rw e (ground (arith, e, v.read, v.edit))
    ])

module _ (s : Console) (v : IsRing s) where
  add_char-room :
      is_full s ≡ false
      → gap s.read_idx ((s.edit_idx + 1) % input_buf) ≡ gap s.read_idx s.edit_idx + 1
  add_char-room e = ground (arith, e, v.read, v.edit)

  pub add_char-Respects : (c : ℕ) → is_full s ≡ false → Respects s (add_char c s)
  add_char-Respects c e = record {
    ring = record {
      read = v.read;
      write = v.write;
      edit = omega arith;
      order = omega (arith, v.order, add_char-room e);
    };
    read = refl;
    more = omega arith;
    same = λ n l.
        chars-put_at n s.read_idx ((s.edit_idx + 1) % input_buf) c s.buf v.read (omega arith)
          (omega (arith, l, v.order, add_char-room e));
  }

  -- The new character stands behind the others.
  pub add_char-unread : (c : ℕ) → is_full s ≡ false → unread (add_char c s) ≡ unread s ++ (c ∷ [])
  add_char-unread c e =
      let g = gap s.read_idx s.edit_idx in
      let k = (s.edit_idx + 1) % input_buf in
      let at : (s.read_idx + g + 1) % input_buf ≡ k = omega (arith, v.read, v.edit) in
      let one : g + 1 ≡ suc g = omega arith in
      let self : (k == k) ≡ true = ground arith in
      ap (λ n. chars n s.read_idx (put_at k c s.buf)) (add_char-room e ∙ one)
      ∙ chars-last g s.read_idx (put_at k c s.buf) v.read
      ∙ rw
          (
            chars-put_at g s.read_idx k c s.buf v.read (omega arith)
                (omega (arith, add_char-room e)),
            at,
            self,
          )
          refl

  pub commit_line-Respects : Respects s (commit_line s)
  commit_line-Respects = record {
    ring = record { read = v.read; write = v.edit; edit = v.edit; order = omega arith };
    read = refl;
    more = v.order;
    same = λ n l. refl;
  }

  pub rub_out-Respects : (s.edit_idx == s.write_idx) ≡ false → Respects s (rub_out s)
  rub_out-Respects e = record {
    ring = record {
      read = v.read;
      write = v.write;
      edit = omega arith;
      order = ground (arith, e, v.order, v.read, v.write, v.edit);
    };
    read = refl;
    more = omega arith;
    same = λ n l. refl;
  }
