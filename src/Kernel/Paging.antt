-- ===== src/Kernel/Paging.antt =====
-- The kernel's page tables as the modules read and write them: the four-level walk
-- (pgd_offset, pud_offset, pmd_offset, pte_offset_map or pte_offset_kernel), page-table entries
-- and their flag bits.
use lkms.Prelude.{ℕ, ◌≡◌, Bool, true, false, not, ◌&&◌, ◌||◌, ◌==◌, if◌then◌else◌}

-- The bits that the modules touch: _PAGE_PRESENT and _PAGE_PROTNONE.
pub data Flag : Type 0 where
  present protnone : Flag

abbrev pub same_flag : Flag → Flag → Bool
same_flag present present = true
same_flag protnone protnone = true
same_flag present protnone = false
same_flag protnone present = false

pub record Paging : Type 1 where
  -- A snapshot of a `struct mm_struct`: its directory levels, which the modules never write.
  pub Mm : Type 0
  pub Pgd : Type 0
  pub Pud : Type 0
  pub Pmd : Type 0
  pub pgd_offset : Mm → ℕ → Pgd
  pub pgd_none : Pgd → Bool
  pub pgd_bad : Pgd → Bool
  pub pud_offset : Pgd → ℕ → Pud
  pub pud_none : Pud → Bool
  pub pud_bad : Pud → Bool
  pub pmd_offset : Pud → ℕ → Pmd
  pub pmd_none : Pmd → Bool
  pub pmd_bad : Pmd → Bool
  -- The address of the entry, 0 for NULL.
  pub pte_offset : Pmd → ℕ → ℕ
  pub Pte : Type 0
  pub pte_set_flags : Pte → Flag → Pte
  pub pte_clear_flags : Pte → Flag → Pte
  -- `pte_flags(p) & f`, and `pte_flags(p)`, as conditions
  pub has_flag : Pte → Flag → Bool
  pub any_flag : Pte → Bool
  pub pte_present : Pte → Bool
  -- Setting a bit sets that bit and no other; so for clearing.
  pub has-set :
      (p : Pte) (f g : Flag) → has_flag (pte_set_flags p f) g ≡ (same_flag f g || has_flag p g)
  pub has-clear :
      (p : Pte) (f g : Flag)
      → has_flag (pte_clear_flags p f) g ≡ (not (same_flag f g) && has_flag p g)
  -- x86 counts an entry as present if either bit is set.
  pub present_iff : (p : Pte) → pte_present p ≡ (has_flag p present || has_flag p protnone)
  pub any_of_has : (p : Pte) (f : Flag) → has_flag p f ≡ true → any_flag p ≡ true

-- A memory area of a process: `vm_start` and `vm_end` of a `struct vm_area_struct`.
pub record Vma : Type 0 where
  pub vm_start : ℕ
  pub vm_end : ℕ

-- Where the four-level walk stops.
pub data Walk : Type 0 where
  no_pgd no_pud no_pmd : Walk
  entry : ℕ → Walk

module _ (k : Paging) where
  open k use {
    Mm, Pte, Pgd, Pud, Pmd, pgd_offset, pgd_none, pgd_bad, pud_offset, pud_none, pud_bad,
    pmd_offset, pmd_none, pmd_bad, pte_offset,
  }

  -- The contents of the entries, by address.
  abbrev pub Ptes : Type 0
  Ptes = ℕ → Pte

  -- set_pte
  abbrev pub set_pte : Ptes → ℕ → Pte → Ptes
  set_pte m p v q = if p == q then v else m q

  -- The walk that each module spells out: it stops at a level that is none or bad, and otherwise
  -- ends with the address of the entry, which may be NULL.
  unfoldable pub descend : Mm → ℕ → Walk
  descend mm addr =
      let pgd = pgd_offset mm addr in
      let pud = pud_offset pgd addr in
      let pmd = pmd_offset pud addr in
      if pgd_none pgd || pgd_bad pgd
      then no_pgd
      else if pud_none pud || pud_bad pud
      then no_pud
      else if pmd_none pmd || pmd_bad pmd
      then no_pmd
      else entry (pte_offset pmd addr)
