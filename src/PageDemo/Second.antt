-- ===== src/PageDemo/Second.antt =====
-- ex8/ex8_13_module2.c: `page_walk`, `kmalloc_demo`, `vmalloc_demo` and `init` model the functions
-- of that name. `virt_addr` and `virt_addr2` are the first module's exported variables.
use lkms.Prelude.{ℕ, ◌==◌, if◌then◌else◌, Option, none, some, ℤ, pos, neg}
use lkms.Kernel.Paging.{Paging, no_pgd, no_pud, no_pmd, entry, descend}
use lkms.PageDemo.{Shown}

-- VMALLOC and KMALLOC
pub data Kind : Type 0 where
  vmalloc kmalloc : Kind

-- The module's variables.
pub record State : Type 0 where
  pub pt : ℕ
  pub pt2 : ℕ

-- `if (flag == VMALLOC) pt2 = pte; else if (flag == KMALLOC) pt = pte;`
unfoldable pub keep : Kind → ℕ → State → State
keep vmalloc pte s = record s { pt2 = pte }
keep kmalloc pte s = record s { pt = pte }

module _ (k : Paging) where
  open k use {Mm}

  unfoldable pub page_walk :
      (current : Option (Option Mm)) → (addr : ℕ) → (flag : Kind) → State → ℤ × State
  page_walk none addr flag s = (neg 4, s)
  page_walk (some none) addr flag s = (neg 4, s)
  page_walk (some (some mm)) addr flag s = elim (descend k mm addr) [
    | no_pgd ↦ (neg 1, s)
    | no_pud ↦ (neg 2, s)
    | no_pmd ↦ (neg 3, s)
    | entry p ↦ if p == 0 then (neg 4, s) else (pos 1, keep flag p s)
  ]

  module _ (virt_to_phys pa : ℕ → ℕ) where
    unfoldable pub kmalloc_demo :
        (current : Option (Option Mm)) → (virt_addr : ℕ) → State → Option Shown × State
    kmalloc_demo current virt_addr s =
        let t = (page_walk current virt_addr kmalloc s).1 in
        if virt_addr == 0 then (none, s) else (
          some (record {
            virtual_addr = virt_addr;
            walked = t.pt;
            phy = virt_to_phys virt_addr;
            phy2 = pa virt_addr;
          }),
          t,
        )

    unfoldable pub vmalloc_demo :
        (current : Option (Option Mm)) → (virt_addr2 : ℕ) → State → Option Shown × State
    vmalloc_demo current virt_addr2 s =
        let t = (page_walk current virt_addr2 vmalloc s).1 in
        if virt_addr2 == 0 then (none, s) else (
          some (record {
            virtual_addr = virt_addr2;
            walked = t.pt2;
            phy = virt_to_phys virt_addr2;
            phy2 = pa virt_addr2;
          }),
          t,
        )

    unfoldable pub init :
        (current current2 : Option (Option Mm))
        → (virt_addr virt_addr2 : ℕ) → State
        → (Option Shown × Option Shown) × ℤ × State
    init current current2 virt_addr virt_addr2 s =
        let (shown, t) = kmalloc_demo current virt_addr s in
        let (shown2, u) = vmalloc_demo current2 virt_addr2 t in ((shown, shown2), pos 0, u)
