-- ===== src/SharedFile.antt =====
-- ex6_ver2.c (exx6.c and exx66.c are the same file): a device of which every open file has a page
-- of its own that user processes map. `char_open`, `char_mmap`, `char_close`, `mmap_open`,
-- `mmap_close`, `mmap_fault`, `init` and `cleanup` model the functions of that name. What kmalloc
-- and get_zeroed_page return, and what kmalloc leaves in the new memory, are arguments.
mod Text
mod Mapping
mod Counting
mod Closing
pub mod TwoPages
mod Examples
use lkms.Prelude.{
  ℕ, ◌+◌, ◌-◌, ◌==◌, leb, if◌then◌else◌, Bool, true, false, Option, none, some, List, [], ◌∷◌, ◌++◌,
  ℤ, pos, ◌==ℤ◌, add32, sub32, length, take, drop, replicate, page_size,
}
use lkms.Kernel.Run.{Run, ok, fault, ◌>>=◌}

pub record MmapInfo : Type 0 where
  pub data_at : ℕ
  pub reference : ℕ

-- A page in use: its bytes, and how many hold it.
pub record Page : Type 0 where
  pub bytes : List ℕ
  pub refs : ℕ

-- Memory in use, by address, and the variable `global_var`.
pub record Device : Type 0 where
  pub infos : ℕ → Option MmapInfo
  pub pages : ℕ → Option Page
  pub global_var : ℕ

-- What the module uses of a `struct file` and of a `struct vm_area_struct`.
pub record File : Type 0 where
  pub name : List ℕ
  pub private_data : ℕ

pub record VmArea : Type 0 where
  pub has_ops : Bool
  pub is_reserved : Bool
  pub vm_private_data : ℕ

-- A map with the value at one address replaced.
abbrev pub update {ℓ} : {A : Type ℓ} → (ℕ → A) → ℕ → A → ℕ → A
update m p v q = if p == q then v else m q

-- Reading or writing through a pointer to what is not in use is a fault; nothing is at NULL.
pub info_at : ℕ → Device → Run MmapInfo
info_at p d = elim (d.infos p) [ none ↦ fault | some i ↦ if p == 0 then fault else ok i ]

pub page_at : ℕ → Device → Run Page
page_at p d = elim (d.pages p) [ none ↦ fault | some g ↦ if p == 0 then fault else ok g ]

-- memcpy to offset `i` of a page
pub memcpy : (i : ℕ) → (source page : List ℕ) → Run (List ℕ)
memcpy i source page =
    if leb (i + length source) (length page)
    then ok (take i page ++ (source ++ drop (i + length source) page))
    else fault

-- What %s prints of a page.
pub c_string : List ℕ → Run (List ℕ)
c_string [] = fault
c_string (b ∷ bs) = if b == 0 then ok [] else (c_string bs >>= λ s. ok (b ∷ s))

-- `printk("… %s", global_var)`; NULL prints no bytes of the module's.
pub print_global : Device → Run (List ℕ)
print_global d =
    if d.global_var == 0 then ok [] else (page_at d.global_var d >>= λ g. c_string g.bytes)

-- "hello from kernel this is file: "
abbrev pub hello : List ℕ
hello =
    104 ∷ 101 ∷ 108 ∷ 108 ∷ 111 ∷ 32 ∷ 102 ∷ 114 ∷ 111 ∷ 109 ∷ 32 ∷ 107 ∷ 101 ∷ 114 ∷ 110 ∷ 101
    ∷ 108 ∷ 32 ∷ 116 ∷ 104 ∷ 105 ∷ 115 ∷ 32 ∷ 105 ∷ 115 ∷ 32 ∷ 102 ∷ 105 ∷ 108 ∷ 101 ∷ 58 ∷ 32 ∷ []

-- `got` and `got_page` are new addresses, or NULL; `left` is what the new `reference` holds.
pub char_open : (got left got_page : ℕ) → File → Device → Run (ℤ × File × Device)
char_open got left got_page f d =
    if got == 0
    then fault
    else if got_page == 0
    then fault
    else (memcpy 0 hello (replicate page_size 0) >>= λ greeting.
        memcpy 32 f.name greeting >>= λ bytes. ok (
          pos 0,
          record f { private_data = got },
          record {
            infos = update d.infos got (some (record { data_at = got_page; reference = left }));
            pages = update d.pages got_page (some (record { bytes = bytes; refs = 1 }));
            global_var = got_page;
          },
        ))

-- `info->reference++` and `info->reference--`
pub mmap_open : VmArea → Device → Run Device
mmap_open vma d = info_at vma.vm_private_data d >>= λ i.
    let j = record i { reference = add32 i.reference 1 } in
    ok (record d { infos = update d.infos vma.vm_private_data (some j) })

pub mmap_close : VmArea → Device → Run Device
mmap_close vma d = info_at vma.vm_private_data d >>= λ i.
    let j = record i { reference = sub32 i.reference 1 } in
    ok (record d { infos = update d.infos vma.vm_private_data (some j) })

-- The return value, and `vmf->page` where it is set.
pub mmap_fault : VmArea → Device → Run (ℤ × Option ℕ × Device)
mmap_fault vma d = info_at vma.vm_private_data d >>= λ i.
    let shared = page_at i.data_at d >>= λ g.
    let h = record g { refs = g.refs + 1 } in
    ok (pos 0, some i.data_at, record d { pages = update d.pages i.data_at (some h) }) in
    if i.data_at == 0 then ok (pos 0, none, d) else shared

pub char_mmap : File → VmArea → Device → Run (ℤ × VmArea × Device)
char_mmap f vma d =
    let v = record vma { has_ops = true; is_reserved = true; vm_private_data = f.private_data } in
    mmap_open v d >>= λ d'. ok (pos 0, v, d')

-- free_page gives one hold on the page up, and the page is free with its last one.
pub free_page : ℕ → Device → Run Device
free_page p d = page_at p d >>= λ g.
    let left = if leb g.refs 1 then none else some (record g { refs = g.refs - 1 }) in
    ok (record d { pages = update d.pages p left })

-- The text printed last is that at `global_var`.
pub char_close : File → Device → Run (List ℕ × ℤ × File × Device)
char_close f d = info_at f.private_data d >>= λ i. free_page i.data_at d >>= λ d1.
    let d2 = record d1 { infos = update d1.infos f.private_data none } in
    print_global d2 >>= λ text. ok (text, pos 0, record f { private_data = 0 }, d2)

-- register_chrdev's answer decides only on what is printed.
pub init : (ret : ℤ) → ℤ
init ret = if ret ==ℤ pos 0 then pos 0 else pos 0

-- What is printed, and the number given to unregister_chrdev: `major_number`, which is never set.
pub cleanup : Device → Run (List ℕ × ℕ)
cleanup d = print_global d >>= λ text. ok (text, 0)
