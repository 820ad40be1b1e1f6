-- ===== src/Fs/Pipe/Inv.antt =====
-- The bytes that a pipe holds, and the invariant of its counters.
use fdu2024_os_honor_lab.Prelude.{
  ℕ, zero, suc, ◌+◌, ◌-◌, ◌%◌, ◌≤◌, ◌<◌, ◌≡◌, ◌≢◌, refl, sym, ap, ap₂, ◌∙◌, leb, true, false, List,
  [], ◌∷◌, ◌++◌, arith, length, length-set, get_or, set, get_or-set_self, get_or-set_ne,
}
use fdu2024_os_honor_lab.Fs.Pipe.{
  Pipe, pipe_size, u32_mod, is_full, is_empty, put, front, advance, init_pipe,
}

-- The number of bytes in the pipe: `nwrite - nread` in 32 bits.
abbrev pub fill : Pipe → ℕ
fill p = (p.nwrite + u32_mod - p.nread) % u32_mod

pub record IsValid (p : Pipe) : Type 0 where
  pub storage : length p.buf ≡ pipe_size
  pub read_in : p.nread < u32_mod
  pub write_in : p.nwrite < u32_mod
  pub fits : fill p ≤ pipe_size

-- The `n` bytes of the buffer from counter `r` on.
abbrev pub window : List ℕ → ℕ → ℕ → List ℕ
window buf r zero = []
window buf r (suc n) = get_or buf (r % pipe_size) 0 ∷ window buf ((r + 1) % u32_mod) n

abbrev pub contents : Pipe → List ℕ
contents p = window p.buf p.nread (fill p)

length-window : (buf : List ℕ) (r n : ℕ) → length (window buf r n) ≡ n
length-window buf r zero = refl
length-window buf r (suc n) = ap suc (length-window buf ((r + 1) % u32_mod) n)

pub length-contents : (p : Pipe) → length (contents p) ≡ fill p
length-contents p = length-window p.buf p.nread (fill p)

pub window_of_ne_zero :
    (buf : List ℕ) (r n : ℕ)
    → n ≢ 0
    → window buf r n ≡ get_or buf (r % pipe_size) 0 ∷ window buf ((r + 1) % u32_mod) (n - 1)
window_of_ne_zero buf r zero h = absurd (h refl)
window_of_ne_zero buf r (suc n) h = ap (λ k. window buf r (suc k)) (omega arith)

-- A byte put behind `n < 512` bytes becomes the last of them.
pub window-set :
    (buf : List ℕ) (x n r i : ℕ)
    → length buf ≡ pipe_size
    → n < pipe_size
    → r < u32_mod
    → i ≡ (r + n) % u32_mod % pipe_size
    → window (set buf i x) r (suc n) ≡ window buf r n ++ (x ∷ [])
window-set buf x zero r i hs hn hr e =
    ap (λ y. y ∷ [])
      (ap (λ j. get_or (set buf i x) j 0) j≡i ∙ get_or-set_self buf i x 0 (omega arith))
  where
    j≡i : r % pipe_size ≡ i
    j≡i = omega arith
window-set buf x (suc n) r i hs hn hr e =
    ap₂ ◌∷◌ (get_or-set_ne buf x 0 (omega arith))
      (window-set buf x n ((r + 1) % u32_mod) i hs (omega arith) (omega arith) (omega arith))

pub init_pipe-IsValid :
    (garbage : List ℕ) → length garbage ≡ pipe_size → IsValid (init_pipe garbage)
unfolding init_pipe
init_pipe-IsValid garbage h = record {
  storage = h;
  read_in = omega arith;
  write_in = omega arith;
  fits = omega arith;
}

pub is_full-eq-true : (p : Pipe) → IsValid p → is_full p ≡ true → fill p ≡ pipe_size
unfolding is_full
is_full-eq-true p v h = ground arith

pub is_full-eq-false : (p : Pipe) → IsValid p → is_full p ≡ false → fill p < pipe_size
unfolding is_full
is_full-eq-false p v h = ground arith

pub is_empty-eq-true : (p : Pipe) → IsValid p → is_empty p ≡ true → fill p ≡ 0
unfolding is_empty
is_empty-eq-true p v h = ground arith

pub is_empty-eq-false : (p : Pipe) → IsValid p → is_empty p ≡ false → fill p ≢ 0
unfolding is_empty
is_empty-eq-false p v h = ground arith

pub is_empty-eq-leb : (p : Pipe) → IsValid p → is_empty p ≡ leb (fill p) 0
unfolding is_empty
is_empty-eq-leb p v = ground arith

pub fill-put : (p : Pipe) (x : ℕ) → IsValid p → fill p < pipe_size → fill (put p x) ≡ suc (fill p)
unfolding put
fill-put p x v h = omega arith

pub put-IsValid : (p : Pipe) (x : ℕ) → IsValid p → fill p < pipe_size → IsValid (put p x)
unfolding put
put-IsValid p x v h = omega (arith, length-set p.buf (p.nwrite % pipe_size) x)

-- A put appends its byte.
pub contents-put :
    (p : Pipe) (x : ℕ)
    → IsValid p
    → fill p < pipe_size
    → contents (put p x) ≡ contents p ++ (x ∷ [])
unfolding put
contents-put p x v h =
    ap (window (set p.buf (p.nwrite % pipe_size) x) p.nread) (fill-put p x v h)
    ∙ window-set p.buf x (fill p) p.nread (p.nwrite % pipe_size) v.storage h v.read_in (omega arith)

pub advance-IsValid : (p : Pipe) → IsValid p → fill p ≢ 0 → IsValid (advance p)
unfolding advance
advance-IsValid p v h = omega arith

pub fill-advance : (p : Pipe) → IsValid p → fill p ≢ 0 → fill (advance p) ≡ fill p - 1
unfolding advance
fill-advance p v h = omega arith

-- The front byte is the oldest one, and advancing drops it.
pub contents-front :
    (p : Pipe) → IsValid p → fill p ≢ 0 → contents p ≡ front p ∷ contents (advance p)
unfolding front advance
contents-front p v h =
    window_of_ne_zero p.buf p.nread (fill p) h
    ∙ ap (λ k. front p ∷ window p.buf ((p.nread + 1) % u32_mod) k) (sym (fill-advance p v h))
