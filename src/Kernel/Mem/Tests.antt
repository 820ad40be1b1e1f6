-- ===== src/Kernel/Mem/Tests.antt =====
-- A memory with one page.
use fdu2024_os_honor_lab.Prelude.{
  ℕ, zero, suc, ◌+◌, ◌*◌, ◌≡◌, ◌≤◌, ◌⊎◌, refl, arith, none, some, [], ◌∷◌,
}
use fdu2024_os_honor_lab.Kernel.Mem.{
  Heap, kalloc_page, units, find_class, cut, cut_page, kalloc, classes,
}
use fdu2024_os_honor_lab.Kernel.Mem.Cover.{cover_free, owners}
use fdu2024_os_honor_lab.Kernel.Mem.Alloc.{IsHeap, kalloc_lem}
use fdu2024_os_honor_lab.Kernel.Mem.Run.{Reach, here, next, allocs, blocks_apart}

abbrev one_page : Heap
one_page = record { nodes = 4096 ∷ []; free = λ i. []; header = λ a. 0 }

nothing_free : (k a : ℕ) → cover_free k (λ i. []) a ≡ 0
unfolding cover_free
nothing_free zero a = refl
nothing_free (suc k) a = omega (arith, nothing_free k a)

one_page-once : (a : ℕ) → owners one_page [] a ≤ 1
unfolding owners
one_page-once a = ground (arith, nothing_free classes a)

kalloc_lem_example :
    ((kalloc 100 one_page ≡ none) × (one_page.nodes ≡ []))
    ⊎ ((node : ℕ) × (t : Heap) × (kalloc 100 one_page ≡ some (node + 8, t))
        × (100 + 8 ≤ units 100 * 16)
        × IsHeap t ((node, units 100) ∷ [])
        × ((a : ℕ) → owners t ((node, units 100) ∷ []) a ≡ owners one_page [] a))
kalloc_lem_example =
    kalloc_lem 100 one_page [] (omega arith) record { once = one_page-once; sized = tt }

abbrev cut_once : Heap
cut_once = cut_page 7 4096 (record one_page { nodes = [] })

abbrev cut_twice : Heap
cut_twice = cut 2 248 4208 [] cut_once

two_blocks :
    Reach
      record { heap = one_page; live = [] }
      record { heap = cut_twice; live = (4208, 2) ∷ (4096, 7) ∷ [] }
unfolding kalloc kalloc_page units find_class cut_page
two_blocks =
    next {q = record { heap = cut_once; live = (4096, 7) ∷ [] }}
      (next here (allocs 100 4096 (omega arith) refl refl)) (allocs 20 4208 (omega arith) refl refl)

blocks_apart_example : (4208 + 2 * 16 ≤ 4096) ⊎ (4096 + 7 * 16 ≤ 4208)
blocks_apart_example = blocks_apart [] [] [] 4208 2 4096 7 refl one_page-once two_blocks refl
