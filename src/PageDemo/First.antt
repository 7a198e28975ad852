-- ===== src/PageDemo/First.antt =====
-- ex8/ex8_13.c: `page_walk`, `allocate_kmalloc`, `allocate_vmalloc`, `kmalloc_demo`, `vmalloc_demo`
-- and `init` model the functions of that name. What kmalloc and vmalloc return is an argument.
use lkms.Prelude.{ℕ, ◌==◌, ◌==ℤ◌, if◌then◌else◌, Option, none, some, ℤ, pos, neg}
use lkms.Kernel.Paging.{Paging, no_pgd, no_pud, no_pmd, entry, descend}
use lkms.PageDemo.{Shown}

-- The module's variables; addresses, 0 for NULL.
pub record State : Type 0 where
  pub pt : ℕ
  pub pointer : ℕ
  pub pointer2 : ℕ
  pub virt_addr : ℕ
  pub virt_addr2 : ℕ

unfoldable pub allocate_kmalloc : (got : ℕ) → State → ℤ × State
allocate_kmalloc got s =
    let t = record s { pointer = got } in
    if got == 0 then (neg 1, t) else (pos 1, record t { virt_addr = got })

unfoldable pub allocate_vmalloc : (got : ℕ) → State → ℤ × State
allocate_vmalloc got s =
    let t = record s { pointer2 = got } in
    if got == 0 then (neg 1, t) else (pos 1, record t { virt_addr2 = got })

module _ (k : Paging) where
  open k use {Mm}

  -- `current`, and its `mm`, where there is one.
  unfoldable pub page_walk : (current : Option (Option Mm)) → (addr : ℕ) → State → ℤ × State
  page_walk none addr s = (neg 4, s)
  page_walk (some none) addr s = (neg 4, s)
  page_walk (some (some mm)) addr s = elim (descend k mm addr) [
    | no_pgd ↦ (neg 1, s)
    | no_pud ↦ (neg 2, s)
    | no_pmd ↦ (neg 3, s)
    | entry p ↦ if p == 0 then (neg 4, s) else (pos 1, record s { pt = p })
  ]

  module _ (virt_to_phys pa : ℕ → ℕ) where
    unfoldable pub kmalloc_demo :
        (current : Option (Option Mm)) → (got : ℕ) → State → Option Shown × State
    kmalloc_demo current got s =
        let (r, t) = allocate_kmalloc got s in
        let u = (page_walk current t.pointer t).1 in
        if r ==ℤ neg 1 then (none, t) else (
          some (record {
            virtual_addr = t.pointer;
            walked = u.pt;
            phy = virt_to_phys t.pointer;
            phy2 = pa t.pointer;
          }),
          u,
        )

    unfoldable pub vmalloc_demo :
        (current : Option (Option Mm)) → (got : ℕ) → State → Option Shown × State
    vmalloc_demo current got s =
        let (r, t) = allocate_vmalloc got s in
        let u = (page_walk current t.pointer2 t).1 in
        if r ==ℤ neg 1 then (none, t) else (
          some (record {
            virtual_addr = t.pointer2;
            walked = u.pt;
            phy = virt_to_phys t.pointer2;
            phy2 = pa t.pointer2;
          }),
          u,
        )

    -- `current` and `current2` are the process as the two demos find it, with the page tables of
    -- that moment.
    unfoldable pub init :
        (current current2 : Option (Option Mm))
        → (got got2 : ℕ) → State
        → (Option Shown × Option Shown) × ℤ × State
    init current current2 got got2 s =
        let (shown, t) = kmalloc_demo current got s in
        let (shown2, u) = vmalloc_demo current2 got2 t in ((shown, shown2), pos 0, u)
