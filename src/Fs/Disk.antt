-- ===== src/Fs/Disk.antt =====
-- The block device as the cache uses it (src/fs/block_device.h): numbered blocks of 512 bytes, here
-- 64 words of 8 bytes, which is how the cache reads its log header and its bitmap.
pub mod Crash
use fdu2024_os_honor_lab.Prelude.{ℕ, zero, suc, ◌+◌, List, [], ◌∷◌, ◌++◌, ◌==◌, if◌then◌else◌}

abbrev pub Words : Type 0
Words = List ℕ

-- `device->write(block_no, data)`, as an entry in the order of writes
abbrev pub Write : Type 0
Write = ℕ × Words

abbrev pub update {ℓ} : {A : Type ℓ} → (ℕ → A) → ℕ → A → ℕ → A
update f b x c = if b == c then x else f c

-- What stands on the device after some writes.
unfoldable pub apply : (ℕ → Words) → List Write → ℕ → Words
apply d [] = d
apply d ((b, x) ∷ ws) = apply (update d b x) ws

-- The device: what each block holds, and every write that it was given, in order.
pub record Disk : Type 0 where
  pub content : ℕ → Words
  pub trace : List Write

unfoldable pub write : Disk → ℕ → Words → Disk
write d b x = record { content = update d.content b x; trace = d.trace ++ ((b, x) ∷ []) }
