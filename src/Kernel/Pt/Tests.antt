-- ===== src/Kernel/Pt/Tests.antt =====
-- A page directory that starts without any table.
use Prim.Native.Nat.{bit_or}
use fdu2024_os_honor_lab.Prelude.{ℕ, ◌+◌, ◌*◌, ◌≡◌, refl, [], ◌∷◌, ◌==◌, if◌then◌else◌, arith}
use fdu2024_os_honor_lab.Prelude.Exec.{done}
use fdu2024_os_honor_lab.Kernel.User.{kspace_mask}
use fdu2024_os_honor_lab.Kernel.Pt.{Tables, k2p, page_base, vmmap}
use fdu2024_os_honor_lab.Kernel.Pt.Tree.{mapped, IsTree}
use fdu2024_os_honor_lab.Kernel.Pt.Map.{page_of, vmmap_lem}

abbrev page : ℕ → ℕ
page k = kspace_mask + 4096 * k

abbrev empty : Tables
empty = record {
  pt = 0;
  heap = record { nodes = page 1 ∷ page 2 ∷ page 3 ∷ page 4 ∷ []; free = λ i. []; header = λ a. 0 };
  entries = λ p i. 7;
  refs = λ n. 0;
}

empty-IsTree : IsTree empty
empty-IsTree = record {
  numbers = λ p. 0;
  null = refl;
  top = λ n. absurd (n refl);
  down = λ p i l pos low e. absurd (omega (arith, pos));
  free_pages = (
    (refl, omega arith, omega arith),
    refl,
    (λ p. absurd (omega arith), (λ p. absurd (omega arith), (λ p. absurd (omega arith), tt))),
    (
      (refl, omega arith, omega arith),
      refl,
      (λ p. absurd (omega arith), (λ p. absurd (omega arith), tt)),
      (
        (refl, omega arith, omega arith),
        refl,
        (λ p. absurd (omega arith), tt),
        ((refl, omega arith, omega arith), refl, tt, tt),
      ),
    ),
  );
}

vmmap_lem_example :
    (t : Tables) × (vmmap 0x8000123456 (page 9) 0x443 empty ≡ done (tt, t))
    × IsTree t
    × ((vb : ℕ)
        → mapped t vb ≡ (
            if page_of 0x8000123456 == page_of vb
            then bit_or (k2p (page_base (page 9))) 0x443
            else mapped empty vb))
vmmap_lem_example = vmmap_lem empty 0x8000123456 (page 9) 0x443 empty-IsTree (omega arith)
