-- ===== src/Kernel/Pt/Tree.antt =====
-- The shape of the tables of a page directory (src/kernel/pt.c): a tree of four levels, in which every
-- table has a number that says by which indices it is reached.
use Prim.Native.Nat.{bit_or}
use fdu2024_os_honor_lab.Prelude.{
  ℕ, zero, suc, ◌+◌, ◌*◌, ◌/◌, ◌%◌, ◌≡◌, ◌≢◌, ◌≤◌, ◌<◌, ◌⊎◌, ◌∙◌, refl, inl, inr, true, false, List,
  [], ◌∷◌, ◌==◌, if◌then◌else◌, arith, Bool-cases,
}
use fdu2024_os_honor_lab.Prelude.Exec.{done}
use fdu2024_os_honor_lab.Kernel.Mem.{page_size, put_at, kalloc_page}
use fdu2024_os_honor_lab.Kernel.User.{kspace_mask, u64_mod}
use fdu2024_os_honor_lab.Kernel.Pt.{Tables, k2p, p2k, pte_address, is_present, va_part, new_page}
use fdu2024_os_honor_lab.Kernel.Pt.Bits.{bit_or_flags}

-- The table that a present entry leads to.
abbrev pub child : ℕ → ℕ
child e = p2k (pte_address e)

-- Table `k` of the walk for an address, 0 when there is none.
abbrev pub step : Tables → ℕ → ℕ → ℕ
step s p i = if p == 0 then 0 else if is_present (s.entries p i) then child (s.entries p i) else 0

abbrev pub table : Tables → ℕ → ℕ → ℕ
table s zero va = s.pt
table s (suc k) va = step s (table s k va) (va_part k va)

-- The number of the table that level `k` of the walk must come to.
abbrev pub number : ℕ → ℕ → ℕ
number zero va = 1
number (suc k) va = number k va * 512 + va_part k va

-- The last level has numbers from here on.
abbrev pub last_level : ℕ
last_level = 512 * 512 * 512

-- The entry of an address, 0 when no table holds it.
abbrev pub mapped : Tables → ℕ → ℕ
mapped s va = if table s 3 va == 0 then 0 else s.entries (table s 3 va) (va_part 3 va)

abbrev pub IsPage : ℕ → Type 0
IsPage p = (p % 4096 ≡ 0) × (kspace_mask ≤ p) × (p < u64_mod)

abbrev pub NotIn : ℕ → List ℕ → Type 0
NotIn p [] = Unit
NotIn p (q ∷ qs) = (p ≢ q) × NotIn p qs

-- Free pages: different ones, none of them a table.
abbrev pub AreFree : (ℕ → ℕ) → List ℕ → Type 0
AreFree numbers [] = Unit
AreFree numbers (p ∷ ps) = IsPage p × (numbers p ≡ 0) × NotIn p ps × AreFree numbers ps

-- The tables form a tree: each one has one number, 0 standing for no table.
pub record IsTree (s : Tables) : Type 0 where
  pub numbers : ℕ → ℕ
  pub null : numbers 0 ≡ 0
  pub top : s.pt ≢ 0 → numbers s.pt ≡ 1
  pub down :
      (p i : ℕ)
      → i < 512
      → 0 < numbers p
      → numbers p < last_level
      → is_present (s.entries p i) ≡ true
      → numbers (child (s.entries p i)) ≡ numbers p * 512 + i
  pub free_pages : AreFree numbers s.heap.nodes

pub child_ne : (e : ℕ) → child e ≢ 0
child_ne e = λ p. absurd (omega arith)

-- An entry for a page leads to it.
pub child-entry :
    (q : ℕ) → IsPage q → (child (bit_or (k2p q) 3) ≡ q) × (is_present (bit_or (k2p q) 3) ≡ true)
child-entry q h =
    let e : bit_or (k2p q) 3 ≡ k2p q + 3 =
      bit_or_flags (k2p q) 3 (omega (arith, h.0, h.1, h.2)) (omega arith) in
    (rw e (omega (arith, h.0, h.1, h.2)), rw e (ground (arith, h.0, h.1, h.2)))

pub number_bounds :
    (va : ℕ)
    → (number 0 va ≡ 1)
      × (number 1 va < 1024)
      × (number 2 va < last_level)
      × (last_level ≤ number 3 va)
number_bounds va = (refl, omega arith, omega arith, omega arith)

pub number-interior : (k va : ℕ) → k < 3 → (0 < number k va) × (number k va < last_level)
number-interior zero va l = (omega arith, omega arith)
number-interior (suc zero) va l = (omega arith, omega arith)
number-interior (suc (suc zero)) va l = (omega arith, omega arith)
number-interior (suc (suc (suc k))) va l = absurd (omega arith)

pub part_lt : (k va : ℕ) → va_part k va < 512
part_lt k va = omega arith

-- The walk meets the table with the number of its level.
pub table-number :
    (s : Tables) (v : IsTree s) (k va : ℕ)
    → k ≤ 3
    → (table s k va ≡ 0) ⊎ (v.numbers (table s k va) ≡ number k va)
table-number s v zero va l = ground (arith, v.top)
table-number s v (suc k) va l = elim (Bool-cases (table s k va == 0)) [
  | inl e ↦ inl (rw e refl)
  | inr e ↦ elim (Bool-cases (is_present (s.entries (table s k va) (va_part k va)))) [
    | inr n ↦ inl (rw (e, n) refl)
    | inl n ↦ elim (table-number s v k va (omega (arith, l))) [
      | inl z ↦ absurd (ground (arith, z, e))
      | inr z ↦
          let b = number-interior k va (omega (arith, l)) in
          inr (
            rw (e, n)
              (v.down (table s k va) (va_part k va) (part_lt k va) (rw z b.0) (rw z b.1) n
                ∙ rw z refl))
    ]
  ]
]

pub AreFree-put :
    (numbers : ℕ → ℕ) (q x : ℕ) (ps : List ℕ)
    → NotIn q ps
    → AreFree numbers ps
    → AreFree (put_at q x numbers) ps
AreFree-put numbers q x [] a f = tt
AreFree-put numbers q x (p ∷ ps) a f =
    (f.0, rw (ne a.0) f.1, f.2, AreFree-put numbers q x ps a.1 f.3)
  where
    ne : q ≢ p → (q == p) ≡ false
    ne h = ground (arith, h)

-- The page that new_page gives, and what is left.
abbrev pub fresh_page : ℕ → List ℕ → Tables → Tables
fresh_page q ps s = record s {
  heap = record (s.heap) { nodes = ps };
  entries = put_at q (λ i. 0) s.entries;
  refs = put_at (k2p q / page_size) 0 s.refs;
}

pub new_page_lem :
    (s : Tables) (q : ℕ) (ps : List ℕ)
    → s.heap.nodes ≡ q ∷ ps
    → new_page s ≡ done (q, fresh_page q ps s)
unfolding new_page kalloc_page
new_page_lem s q ps e = rw e refl
