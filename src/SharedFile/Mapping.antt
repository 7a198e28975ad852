-- ===== src/SharedFile/Mapping.antt =====
-- ex6_ver2.c: a file that is opened and mapped, and how often it is mapped.
use lkms.Prelude.{
  ℕ, ◌<◌, ◌≡◌, ◌≢◌, refl, ◌∙◌, sym, ==_of_ne, ==-self, Option, some, List, ◌++◌, All, pos, length,
  add32,
}
use lkms.Kernel.Run.{Run, ok, Ends, ends, ◌>>=◌}
use lkms.SharedFile.{
  File, VmArea, Device, Page, MmapInfo, c_string, hello, char_open, char_mmap, mmap_open,
  mmap_fault, update, info_at, page_at,
}
use lkms.SharedFile.Text.{Greeted, greets}

pub record Touched : Type 0 where
  pub page : Option ℕ
  pub file : File
  pub area : VmArea
  pub device : Device

-- A user process opens the file, maps it and touches the mapping.
abbrev pub open_map_touch : (got left got_page : ℕ) → File → VmArea → Device → Run Touched
open_map_touch got left got_page f vma d = char_open got left got_page f d >>= λ (_, f1, d1).
    char_mmap f1 vma d1 >>= λ (_, v, d2). mmap_fault v d2 >>= λ (_, page, d3).
    ok (record { page = page; file = f1; area = v; device = d3 })

-- The process is given a page that reads as the greeting and the file's name.
pub record Shared (got left got_page : ℕ) (name : List ℕ) (d : Device) (r : Touched) : Type 0 where
  pub page : r.page ≡ some got_page
  pub text :
      (bytes : List ℕ) × (r.device.pages got_page ≡ some (record { bytes = bytes; refs = 2 }))
      × (c_string bytes ≡ ok (hello ++ name))
  pub counted : r.device.infos got ≡ some (record { data_at = got_page; reference = add32 left 1 })
  pub latest : r.device.global_var ≡ got_page
  pub private : r.file.private_data ≡ got
  pub mapped : r.area.vm_private_data ≡ got
  pub other_infos : (p : ℕ) → p ≢ got → r.device.infos p ≡ d.infos p
  pub other_pages : (p : ℕ) → p ≢ got_page → r.device.pages p ≡ d.pages p

pub update_self {ℓ} : {A : Type ℓ} (m : ℕ → A) (p : ℕ) (v : A) → update m p v p ≡ v
update_self m p v = rw (==-self p) refl

pub update_other {ℓ} :
    {A : Type ℓ} (m : ℕ → A) (p : ℕ) (v : A) (q : ℕ) → p ≢ q → update m p v q ≡ m q
update_other m p v q n = rw (==_of_ne p q n) refl

pub update_twice {ℓ} :
    {A : Type ℓ} (m : ℕ → A) (p : ℕ) (v w : A) (q : ℕ) → p ≢ q → update (update m p v) p w q ≡ m q
update_twice m p v w q n = update_other (update m p v) p w q n ∙ update_other m p v q n

-- The device with a file newly open.
abbrev pub opened : (got left got_page : ℕ) → List ℕ → Device → Device
opened got left got_page bytes d = record {
  infos = update d.infos got (some (record { data_at = got_page; reference = left }));
  pages = update d.pages got_page (some (record { bytes = bytes; refs = 1 }));
  global_var = got_page;
}

pub char_open-run :
    (got left got_page : ℕ) (f : File) (d : Device)
    → got ≢ 0
    → got_page ≢ 0
    → (g : Greeted f.name)
    → char_open got left got_page f d
      ≡ ok (pos 0, record f { private_data = got }, opened got left got_page g.bytes d)
unfolding char_open
char_open-run got left got_page f d n n2 g =
    rw (char_open, ==_of_ne got 0 n, ==_of_ne got_page 0 n2, g.first, ◌>>=◌, g.second, ◌>>=◌) refl

pub info_at-run :
    (p : ℕ) (i : MmapInfo) (d : Device) → d.infos p ≡ some i → p ≢ 0 → info_at p d ≡ ok i
unfolding info_at
info_at-run p i d e n = rw (info_at, e, ==_of_ne p 0 n) refl

pub page_at-run : (p : ℕ) (g : Page) (d : Device) → d.pages p ≡ some g → p ≢ 0 → page_at p d ≡ ok g
unfolding page_at
page_at-run p g d e n = rw (page_at, e, ==_of_ne p 0 n) refl

-- If kmalloc and get_zeroed_page give memory, and the name has fewer than 4064 bytes and no NUL,
-- then opening a file, mapping it and touching the mapping runs without a fault; the process is
-- given the file's page, which reads as the greeting and the name and is held twice; the count of
-- mappings is one above what kmalloc left in it; all other memory is as before.
pub open_map_touch-Shared :
    (got left got_page : ℕ) (f : File) (vma : VmArea) (d : Device)
    → got ≢ 0
    → got_page ≢ 0
    → length f.name < 4064
    → All (λ b. b ≢ 0) f.name
    → Ends (Shared got left got_page f.name d) (open_map_touch got left got_page f vma d)
unfolding char_mmap mmap_open mmap_fault
open_map_touch-Shared got left got_page f vma d n n2 small nonzero =
    let g = greets f.name small nonzero in
    let d1 = opened got left got_page g.bytes d in
    let i : MmapInfo = record { data_at = got_page; reference = left } in
    let j : MmapInfo = record { data_at = got_page; reference = add32 left 1 } in
    let d2 : Device = record d1 { infos = update d1.infos got (some j) } in
    let h : Page = record { bytes = g.bytes; refs = 1 } in
    rw
      (
        char_open-run got left got_page f d n n2 g,
        ◌>>=◌,
        char_mmap,
        mmap_open,
        info_at-run got i d1 (update_self d.infos got (some i)) n,
        ◌>>=◌,
        mmap_fault,
        info_at-run got j d2 (update_self d1.infos got (some j)) n,
        ◌>>=◌,
        page_at-run got_page h d2 (update_self d.pages got_page (some h)) n2,
        ◌>>=◌,
        ==_of_ne got_page 0 n2,
      )
      (ends (record {
        page = refl;
        text = (g.bytes, update_self d2.pages got_page _, g.text);
        counted = update_self d1.infos got (some j);
        latest = refl;
        private = refl;
        mapped = refl;
        other_infos = λ p ne. update_twice d.infos got _ _ p (λ e. ne (sym e));
        other_pages = λ p ne. update_twice d.pages got_page _ _ p (λ e. ne (sym e));
      }))
