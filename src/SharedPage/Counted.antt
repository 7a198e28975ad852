-- ===== src/SharedPage/Counted.antt =====
-- ex77.c: `mmap_mmap`, which counts the mappings, and `size_store`, which allocates no page.
use lkms.Prelude.{ℕ, ◌==◌, if◌then◌else◌, ◌&&◌, Bool, true, none, some, ℤ, pos}
use lkms.Kernel.Run.{Run, ok, fault, ◌>>=◌}
use lkms.SharedPage.{State, update, mmap_open}
use lkms.SharedPage.Paged.{lt_int, hello, release_old}

-- The fields of a `struct vm_area_struct` that are set.
pub record VmArea : Type 0 where
  pub has_ops : Bool
  pub is_reserved : Bool
  pub vm_private_data : ℕ

unfoldable pub mmap_mmap : (private_data : ℕ) → VmArea → State → ℤ × VmArea × State
mmap_mmap private_data vma s = (
  pos 0,
  record vma { has_ops = true; is_reserved = true; vm_private_data = private_data },
  mmap_open s,
)

-- `left` is what the `data` of the new object happens to hold: the text is written there, which
-- is a fault unless it is a page in use.
unfoldable pub size_store : (tmp : ℤ) → (got left : ℕ) → State → Run State
size_store tmp got left s =
    let renewed = release_old s >>= λ t.
    let u = record t { size = tmp; mp_info = got; infos = update t.infos got (some left) } in
    let copied : Run State = elim (t.pages left) [
      | none ↦ fault
      | some g ↦ ok (record u { pages = update t.pages left (some (record g { text = hello })) })
    ] in
    if got == 0 then fault else if left == 0 then fault else copied in
    if lt_int s.size tmp && (s.count == 0) then renewed else ok s
