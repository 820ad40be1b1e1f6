-- ===== src/Fs/Path.antt =====
-- Path names (skipelem of src/fs/inode.c). A path is the list of its characters before the zero byte.
pub mod Split
pub mod Walk
mod Tests
use fdu2024_os_honor_lab.Prelude.{
  ℕ, Option, none, some, List, [], ◌∷◌, ◌++◌, ◌==◌, if◌then◌else◌, ltb, leb, length, take,
}

-- FILE_NAME_MAX_LENGTH
abbrev pub file_name_max_length : ℕ
file_name_max_length = 14

abbrev pub slash : ℕ
slash = 47

-- `while (*path == '/') path++`
unfoldable pub skip_slashes : List ℕ → List ℕ
skip_slashes [] = []
skip_slashes (c ∷ cs) = let rest = skip_slashes cs in if c == slash then rest else c ∷ cs

-- `while (*path != '/' && *path != 0) path++`: what is passed, and what is left
unfoldable pub pass_name : List ℕ → List ℕ × List ℕ
pass_name [] = ([], [])
pass_name (c ∷ cs) =
    let (name, rest) = pass_name cs in if c == slash then ([], c ∷ cs) else (c ∷ name, rest)

-- What skipelem stores to `name`: 14 bytes, or the element and a zero byte.
unfoldable pub stored_name : List ℕ → List ℕ
stored_name s =
    if leb file_name_max_length (length s) then take file_name_max_length s else s ++ (0 ∷ [])

-- skipelem: the bytes stored to `name`, and the path that is left
unfoldable pub skipelem : List ℕ → Option (List ℕ × List ℕ)
skipelem path = elim (skip_slashes path) [
  | [] ↦ none
  | c ∷ cs ↦ (let (s, rest) = pass_name (c ∷ cs) in some (stored_name s, skip_slashes rest))
]
