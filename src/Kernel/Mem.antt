-- ===== src/Kernel/Mem.antt =====
-- Kernel memory (src/kernel/mem.c): pages of 4096 bytes, and blocks of a multiple of 16 bytes, at most
-- 256 of them, with a header of 8 bytes. A queue of free memory is the list of its addresses, and `add`
-- and `fetch` work at its head. The counters of pages are not modelled. The result `none` stands for
-- what the code does not guard against: no page is left, or an index of `free` is out of range.
pub mod Cover
pub mod Alloc
pub mod Run
mod Tests
use fdu2024_os_honor_lab.Prelude.{
  ℕ, zero, suc, ◌+◌, ◌-◌, ◌*◌, ◌/◌, ◌%◌, Option, none, some, List, [], ◌∷◌, ◌==◌, if◌then◌else◌,
  ltb,
}

abbrev pub page_size : ℕ
page_size = 4096

abbrev pub classes : ℕ
classes = 256

-- `nodes`, `free`, and the header that stands at each address
pub record Heap : Type 0 where
  pub nodes : List ℕ
  pub free : ℕ → List ℕ
  pub header : ℕ → ℕ

abbrev pub put_at {ℓ} : {A : Type ℓ} → ℕ → A → (ℕ → A) → ℕ → A
put_at i x f j = if i == j then x else f j

-- fetch_from_queue of the pages
unfoldable pub kalloc_page : Heap → Option (ℕ × Heap)
kalloc_page h = elim h.nodes [ [] ↦ none | p ∷ ps ↦ some (p, record h { nodes = ps }) ]

-- `number`: units of 16 bytes for a request and its header
unfoldable pub units : ℕ → ℕ
units size = let s = size + 8 in if s % 16 == 0 then s / 16 else s / 16 + 1

-- `add_to_queue(&free[i], block)`
abbrev pub add_free : ℕ → ℕ → Heap → Heap
add_free i block h = record h { free = put_at i (block ∷ h.free i) h.free }

-- `*(int*) node = x`
abbrev pub set_header : ℕ → ℕ → Heap → Heap
set_header node x h = record h { header = put_at node x h.header }

-- The loop of kalloc, for `n` more classes from `i` on: the first that is not empty, its first block,
-- and the others.
unfoldable pub find_class : ℕ → ℕ → (ℕ → List ℕ) → Option (ℕ × ℕ × List ℕ)
find_class zero i free = none
find_class (suc n) i free = elim (free i) [
  | [] ↦ find_class n (i + 1) free
  | node ∷ rest ↦ some (i, node, rest)
]

-- The body of that loop: a block of class `i` is cut.
unfoldable pub cut : ℕ → ℕ → ℕ → List ℕ → Heap → Heap
cut number i node rest h =
    let g = record h { free = put_at i rest h.free } in
    let freenumber = i + 1 - number in
    set_header node (number - 1)
      (if freenumber == 0 then g else add_free (freenumber - 1) (node + number * 16) g)

-- The end of kalloc: a page is cut.
unfoldable pub cut_page : ℕ → ℕ → Heap → Heap
cut_page number node h =
    set_header node (number - 1) (add_free (classes - number - 1) (node + number * 16) h)

-- kalloc
unfoldable pub kalloc : ℕ → Heap → Option (ℕ × Heap)
kalloc size h =
    let number = units size in
    if number == classes
    then elim (kalloc_page h) [
      | none ↦ none
      | some (node, g) ↦ some (node + 8, set_header node classes g)
    ]
    else elim (find_class (classes - (number - 1)) (number - 1) h.free) [
      | some (i, node, rest) ↦ some (node + 8, cut number i node rest h)
      | none ↦
          if ltb number classes
          then elim (kalloc_page h) [
            | none ↦ none
            | some (node, g) ↦ some (node + 8, cut_page number node g)
          ]
          else none
    ]

-- kfree
unfoldable pub kfree : ℕ → Heap → Option Heap
kfree ptr h =
    let node = ptr - 8 in
    if ltb (h.header node) classes then some (add_free (h.header node) node h) else none
