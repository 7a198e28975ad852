-- ===== src/KmallocMap/Printing.antt =====
-- ex7.c: `init`, `char_mmap`, `char_release` and `cleanup` model the functions of that name.
use lkms.Prelude.{
  ℕ, zero, suc, ◌+◌, ◌*◌, ◌==◌, ltb, if◌then◌else◌, true, false, List, ℤ, pos, neg, ◌==ℤ◌, add64,
  page_size,
}
use lkms.Kernel.Run.{Run, ok, out_of_fuel, ◌>>=◌}
use lkms.KmallocMap.{
  State, page_limit, page_align, store, sprintf, page_text, reserve_pages, print_pages,
}

-- The last loop of `init`.
unfoldable pub write_pages : ℕ → (i end count : ℕ) → (buffer : List ℕ) → State → Run State
write_pages zero i e count buffer s = out_of_fuel
write_pages (suc fuel) i e count buffer s = elim (ltb i e) [
  | true ↦ sprintf (page_text count) buffer >>= λ filled.
      store i filled s >>= λ t. write_pages fuel (add64 i page_size) e (count + 1) filled t
  | false ↦ ok s
]

-- `got` and `major` are what kmalloc and register_chrdev return; `stack` is what the array
-- `buffer[50]` holds at first.
unfoldable pub init : (got : ℕ) → (major : ℤ) → (stack : List ℕ) → State → Run (ℤ × State)
init got major stack s =
    let s1 = record s {
      kmalloc_ptr = got;
      allocated = true;
      kmalloc_area = page_align got;
      major_number = major;
    } in
    let filled = reserve_pages 17 0 s1 >>= λ s2.
    let e = add64 s2.kmalloc_area (page_limit * page_size) in
    let s3 = record s2 { end = e } in
    write_pages 17 s3.kmalloc_area e 1 stack s3 >>= λ t. ok (pos 0, t) in
    if got == 0
    then ok (neg 12, record s { kmalloc_ptr = 0 })
    else if major ==ℤ pos 0
    then ok (pos 0, s1)
    else filled

-- The texts that are printed when the device is closed.
unfoldable pub char_release : State → Run (List (List ℕ) × ℤ)
char_release s = print_pages 17 s.kmalloc_area s.end s >>= λ texts. ok (texts, pos 0)

-- The pages are marked reserved once more, where the comment says that they are unreserved.
unfoldable pub cleanup : State → Run (List (List ℕ) × State)
cleanup s = print_pages 17 s.kmalloc_area s.end s >>= λ texts.
    reserve_pages 17 0 s >>= λ t. ok (texts, record t { allocated = false })
