-- ===== src/KmallocMap/Clearing.antt =====
-- new_st.c: `init` and `cleanup` model the functions of that name; `char_mmap` is as in ex7.c, and
-- closing the device does nothing.
use lkms.Prelude.{
  ℕ, zero, suc, ◌+◌, ◌*◌, ◌==◌, ltb, if◌then◌else◌, true, false, List, ℤ, pos, neg, ◌==ℤ◌, add64,
  page_size, replicate,
}
use lkms.Kernel.Run.{Run, ok, out_of_fuel, ◌>>=◌}
use lkms.KmallocMap.{
  State, page_limit, page_align, store, sprintf, page_text, reserve_pages, print_pages,
}

-- The last loop of `init`: each page is set to zero first.
unfoldable pub write_pages : ℕ → (i end count : ℕ) → (buffer : List ℕ) → State → Run State
write_pages zero i e count buffer s = out_of_fuel
write_pages (suc fuel) i e count buffer s = elim (ltb i e) [
  | true ↦ sprintf (page_text count) buffer >>= λ filled. store i (replicate page_size 0) s >>= λ t.
      store i filled t >>= λ u. write_pages fuel (add64 i page_size) e (count + 1) filled u
  | false ↦ ok s
]

unfoldable pub init : (got : ℕ) → (major : ℤ) → (stack : List ℕ) → State → Run (ℤ × State)
init got major stack s =
    let s1 = record s {
      kmalloc_ptr = got;
      allocated = true;
      kmalloc_area = page_align got;
      major_number = major;
    } in
    let e = add64 s1.kmalloc_area (page_limit * page_size) in
    let filled = reserve_pages 17 0 s1 >>= λ s2.
    write_pages 17 s2.kmalloc_area e 1 stack s2 >>= λ t. ok (pos 0, t) in
    if got == 0
    then ok (neg 12, record s { kmalloc_ptr = 0 })
    else if major ==ℤ pos 0
    then ok (pos 0, s1)
    else filled

-- `end` is computed anew.
unfoldable pub cleanup : State → Run (List (List ℕ) × State)
cleanup s =
    let e = add64 s.kmalloc_area (page_limit * page_size) in
    print_pages 17 s.kmalloc_area e s >>= λ texts.
    reserve_pages 17 0 s >>= λ t. ok (texts, record t { allocated = false })
