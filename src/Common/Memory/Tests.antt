-- ===== src/Common/Memory/Tests.antt =====
-- Memory functions on a small memory.
use fdu2024_os_honor_lab.Prelude.{◌≡◌, refl, if◌then◌else◌, ◌==◌}
use fdu2024_os_honor_lab.Prelude.Int.{negsuc}
use fdu2024_os_honor_lab.Common.Memory.{Memory, memmove, memcpy, copy_down, strncmp}
use fdu2024_os_honor_lab.Common.Memory.Move.{moved, memmove_lem}

-- "ab" at 10, "ac" at 20, zeros elsewhere
abbrev text : Memory
text a =
    if a == 10
    then 97
    else if a == 11
    then 98
    else if a == 20
    then 97
    else if a == 21
    then 99
    else 0

overlap : memmove text 11 10 2 12 ≡ 98
unfolding memmove copy_down memcpy
overlap = refl

compares : strncmp text 10 20 5 ≡ negsuc 0
unfolding strncmp
compares = refl

memmove_lem_example : memmove text 11 10 2 12 ≡ moved text 11 10 2 12
memmove_lem_example = memmove_lem text 11 10 2 12
