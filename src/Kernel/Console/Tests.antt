-- ===== src/Kernel/Console/Tests.antt =====
-- The console on a few characters.
use fdu2024_os_honor_lab.Prelude.{
  ◌-◌, ◌≡◌, ◌⊎◌, refl, true, none, some, [], ◌==◌, if◌then◌else◌, length, arith,
}
use fdu2024_os_honor_lab.Kernel.Console.{Console, console_intr, rub_line, input_buf}
use fdu2024_os_honor_lab.Kernel.Console.Edit.{console_intr_lem}
use fdu2024_os_honor_lab.Kernel.Console.Ring.{unread, IsRing, Respects}

-- A line "a" was typed, and then "b".
abbrev one_line : Console
one_line = record {
  buf = λ i. if i == 1 then 97 else if i == 2 then 10 else if i == 3 then 98 else 0;
  read_idx = 0;
  write_idx = 2;
  edit_idx = 3;
  posts = 1;
  output = [];
  kills = 0;
}

one_line-IsRing : IsRing one_line
one_line-IsRing = record {
  read = omega arith;
  write = omega arith;
  edit = omega arith;
  order = omega arith;
}

console_intr_lem_example :
    ((console_intr true 21 one_line ≡ none) × (length (unread one_line) ≡ input_buf - 1))
    ⊎ ((t : Console) × (console_intr true 21 one_line ≡ some t) × Respects one_line t)
console_intr_lem_example = console_intr_lem true 21 one_line one_line-IsRing

-- The first character of a line is not taken back by C('U').
control_u_leaves_one : rub_line input_buf one_line ≡ one_line
unfolding rub_line
control_u_leaves_one = refl
