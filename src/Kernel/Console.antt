-- ===== src/Kernel/Console.antt =====
-- Line editing of the console (console_intr of src/kernel/console.c), and the characters that
-- console_read takes from its ring. A `usize` index that goes below 0 wraps, which modulo 128 is a step
-- back. The result `none` of console_intr stands for its loop that never ends.
pub mod Ring
pub mod Edit
mod Tests
use fdu2024_os_honor_lab.Prelude.{
  ℕ, zero, suc, ◌+◌, ◌-◌, ◌%◌, Bool, true, false, not, ◌&&◌, ◌||◌, Option, none, some, List, [],
  ◌∷◌, ◌++◌, ◌==◌, if◌then◌else◌,
}
use fdu2024_os_honor_lab.Kernel.Mem.{put_at}

-- INPUT_BUF, BACKSPACE, and C('U'), C('D'), C('C')
abbrev pub input_buf : ℕ
input_buf = 128

abbrev pub backspace : ℕ
backspace = 127

abbrev pub control_u : ℕ
control_u = 21

abbrev pub control_d : ℕ
control_d = 4

abbrev pub control_c : ℕ
control_c = 3

abbrev pub newline : ℕ
newline = 10

-- `struct console`, with the number of posts to its semaphore, what went to the serial port, and the
-- number of times that the current process was killed
pub record Console : Type 0 where
  pub buf : ℕ → ℕ
  pub read_idx : ℕ
  pub write_idx : ℕ
  pub edit_idx : ℕ
  pub posts : ℕ
  pub output : List ℕ
  pub kills : ℕ

abbrev pub put : List ℕ → Console → Console
put cs s = record s { output = s.output ++ cs }

-- Taking back the last character: the index, and "\b \b" to the serial port.
abbrev pub rub_out : Console → Console
rub_out s =
    put (8 ∷ 32 ∷ 8 ∷ []) (record s { edit_idx = (s.edit_idx + (input_buf - 1)) % input_buf })

-- The loop of C('U'), with fuel.
unfoldable pub rub_line : ℕ → Console → Console
rub_line zero s = s
rub_line (suc f) s =
    let rest = rub_line f (rub_out s) in
    if not (s.edit_idx == s.write_idx)
      && not (s.buf ((s.edit_idx + (input_buf - 1)) % input_buf) == newline)
    then rest
    else s

abbrev pub is_full : Console → Bool
is_full s = (s.edit_idx + 1) % input_buf == s.read_idx

-- A character goes into the buffer and to the serial port.
abbrev pub add_char : ℕ → Console → Console
add_char c s =
    let e = (s.edit_idx + 1) % input_buf in
    put (c ∷ []) (record s { edit_idx = e; buf = put_at e c s.buf })

-- The line is given to the readers.
abbrev pub commit_line : Console → Console
commit_line s = record s { write_idx = s.edit_idx; posts = s.posts + 1 }

-- The last branch of console_intr
unfoldable pub type_char : ℕ → Console → Option Console
type_char c s =
    if is_full s
    then none
    else (let t = add_char c s in
        if (c == newline) || is_full t then some (commit_line t) else some t)

-- console_intr; `may_kill` is the test of the pid, and a byte 0xff says that there is no character.
unfoldable pub console_intr : Bool → ℕ → Console → Option Console
console_intr may_kill b s =
    if b == 255
    then some s
    else (let c = if b == 13 then newline else b in
        if c == backspace
        then some (if s.edit_idx == s.write_idx then s else rub_out s)
        else if c == control_u
        then some (rub_line input_buf s)
        else if c == control_d
        then (if is_full s then none else some (commit_line (add_char c s)))
        else if c == control_c
        then some (
            let t = put (94 ∷ 67 ∷ []) s in
            if may_kill then record t { kills = t.kills + 1 } else t)
        else type_char c s)
