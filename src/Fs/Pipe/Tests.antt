-- ===== src/Fs/Pipe/Tests.antt =====
-- Pipes on small inputs: a full round of the counters, past the end of the buffer and of 32 bits.
use fdu2024_os_honor_lab.Prelude.{
  ◌-◌, ◌^◌, ◌≡◌, refl, true, false, [], ◌∷◌, ◌++◌, arith, replicate, take,
}
use fdu2024_os_honor_lab.Fs.Pipe.{Pipe, write, write_from, read, put, is_full}
use fdu2024_os_honor_lab.Fs.Pipe.Inv.{IsValid, contents}
use fdu2024_os_honor_lab.Fs.Pipe.Refine.{room, write_end, read_end, write_refines, read_refines}

-- Empty, with both counters at their last value.
abbrev late : Pipe
late = record {
  buf = replicate 512 0;
  nread = 2 ^ 32 - 1;
  nwrite = 2 ^ 32 - 1;
  readopen = true;
  writeopen = true;
  rlock = 0;
  wlock = 0;
}

late-IsValid : IsValid late
late-IsValid = omega arith

write_wraps : contents (write false late (5 ∷ 6 ∷ [])).1 ≡ 5 ∷ 6 ∷ []
unfolding write write_from put is_full
write_wraps = refl

write_refines_example :
    IsValid (write false late (5 ∷ 6 ∷ [])).1
    × (contents (write false late (5 ∷ 6 ∷ [])).1 ≡ contents late ++ take (room late) (5 ∷ 6 ∷ []))
    × ((write false late (5 ∷ 6 ∷ [])).0 ≡ write_end false late 2 0)
write_refines_example = write_refines false late (5 ∷ 6 ∷ []) late-IsValid

read_refines_example :
    IsValid (read true late 3).2
    × (let (xs, how, q) = read true late 3 in (xs, how) ≡ read_end true late 3)
    × (contents late ≡ (read true late 3).0 ++ contents (read true late 3).2)
read_refines_example = read_refines true late 3 late-IsValid
