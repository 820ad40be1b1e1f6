-- ===== src/Kernel/Pt.antt =====
-- Page tables (src/kernel/pt.c, src/aarch64/mmu.h): the tables of one page directory, in kernel memory.
-- An address and an entry have 64 bits. A page of entries is found by its kernel address; `panic` stands
-- for the null pointer that kalloc_page gives when no page is left, which the code follows.
pub mod Bits
pub mod Tree
pub mod Attach
pub mod Grow
pub mod Map
mod Tests
use Prim.Native.Nat.{bit_or}
use fdu2024_os_honor_lab.Prelude.{
  ℕ, ◌+◌, ◌-◌, ◌*◌, ◌/◌, ◌%◌, ◌^◌, Bool, true, false, Option, none, some, ◌==◌, if◌then◌else◌,
}
use fdu2024_os_honor_lab.Prelude.Exec.{Result, done, panic, M, pure, modify, ◌>>=◌, ◌>>◌}
use fdu2024_os_honor_lab.Kernel.Mem.{Heap, page_size, put_at, kalloc_page}
use fdu2024_os_honor_lab.Kernel.User.{kspace_mask, u64_mod}

-- `pgdir->pt`, 0 for a null pointer; the heap that new pages come from; the entries of each page; and
-- the counts in `pages_ref` by the number of the page
pub record Tables : Type 0 where
  pub pt : ℕ
  pub heap : Heap
  pub entries : ℕ → ℕ → ℕ
  pub refs : ℕ → ℕ

-- K2P and P2K
abbrev pub k2p : ℕ → ℕ
k2p a = (a + (u64_mod - kspace_mask)) % u64_mod

abbrev pub p2k : ℕ → ℕ
p2k a = (a + kspace_mask) % u64_mod

-- PTE_ADDRESS, and the test of PTE_VALID
abbrev pub pte_address : ℕ → ℕ
pte_address e = e % 2 ^ 48 / 2 ^ 12 * 2 ^ 12

abbrev pub is_present : ℕ → Bool
is_present e = e % 2 == 1

-- PAGE_BASE
abbrev pub page_base : ℕ → ℕ
page_base a = a / page_size * page_size

-- VA_PART0 to VA_PART3
abbrev pub va_part : ℕ → ℕ → ℕ
va_part k va = va / 2 ^ (39 - 9 * k) % 512

-- kalloc_page, and memset of the page to 0
unfoldable pub new_page : M Tables ℕ
new_page s = elim (kalloc_page s.heap) [
  | none ↦ panic
  | some (p, h) ↦ done (
    p,
    record s {
      heap = h;
      entries = put_at p (λ i. 0) s.entries;
      refs = put_at (k2p p / page_size) 0 s.refs;
    },
  )
]

abbrev pub set_entry : ℕ → ℕ → ℕ → Tables → Tables
set_entry p i e s = record s { entries = put_at p (put_at i e (s.entries p)) s.entries }

-- One level of get_pte: the table behind entry `i` of table `p`, where PTE_TABLE is 3.
unfoldable pub next_table : Bool → ℕ → ℕ → M Tables (Option ℕ)
next_table alloc p i s =
    if is_present (s.entries p i)
    then done (some (p2k (pte_address (s.entries p i))), s)
    else if alloc
    then (do q ← new_page; modify (set_entry p i (bit_or (k2p q) 3)); pure (some q)) s
    else done (none, s)

-- The top of get_pte: `pgdir->pt`, which is allocated if it is null.
unfoldable pub top_table : Bool → M Tables (Option ℕ)
top_table alloc s =
    if s.pt == 0
    then if alloc
      then (do q ← new_page; modify (λ t. record t { pt = q }); pure (some q)) s
      else done (none, s)
    else done (some s.pt, s)

-- The next level, unless there is none.
abbrev pub then_table : Bool → ℕ → Option ℕ → M Tables (Option ℕ)
then_table alloc i none = pure none
then_table alloc i (some p) = next_table alloc p i

abbrev pub entry_in : ℕ → Option ℕ → Option (ℕ × ℕ)
entry_in i none = none
entry_in i (some p) = some (p, i)

-- get_pte: the table and the index of the entry, or none for a null pointer
unfoldable pub get_pte : Bool → ℕ → M Tables (Option (ℕ × ℕ))
get_pte alloc va = do
  pt0 ← top_table alloc
  pt1 ← then_table alloc (va_part 0 va) pt0
  pt2 ← then_table alloc (va_part 1 va) pt1
  pt3 ← then_table alloc (va_part 2 va) pt2
  pure (entry_in (va_part 3 va) pt3)

-- init_pgdir
unfoldable pub init_pgdir : M Tables Unit
init_pgdir = do q ← new_page; modify (λ t. record t { pt = q })

-- What vmmap does at the entry: two stores, and one more reference to the page.
abbrev pub map_page : ℕ → ℕ → Option (ℕ × ℕ) → M Tables Unit
map_page ka flags none = λ s. panic
map_page ka flags (some (p, i)) = do
  modify (set_entry p i (k2p (page_base ka)))
  modify (λ s. set_entry p i (bit_or (s.entries p i) flags) s)
  modify (λ s.
      let n = k2p (page_base ka) / page_size in record s { refs = put_at n (s.refs n + 1) s.refs })

-- vmmap
unfoldable pub vmmap : ℕ → ℕ → ℕ → M Tables Unit
vmmap va ka flags = do e ← get_pte true va; map_page ka flags e
