-- ===== src/SharedPage/Paged.antt =====
-- ex7_ver2.c: `size_store`, `mmap_mmap` and `mmap_fault`.
use lkms.Prelude.{
  ℕ, ◌+◌, ◌*◌, ◌/◌, ◌==◌, ltb, if◌then◌else◌, ◌&&◌, Bool, true, false, Option, none, some, List, [],
  ◌∷◌, ℤ, pos, neg, negsuc, sub64, page_size,
}
use lkms.Kernel.Run.{Run, ok, fault, ◌>>=◌}
use lkms.SharedPage.{State, update, data_of, free_page}

-- `a < b` on int
abbrev pub lt_int : ℤ → ℤ → Bool
lt_int (pos a) (pos b) = ltb a b
lt_int (pos a) (negsuc b) = false
lt_int (negsuc a) (pos b) = true
lt_int (negsuc a) (negsuc b) = ltb b a

-- "Hello this is kernel."
abbrev pub hello : List ℕ
hello =
    72 ∷ 101 ∷ 108 ∷ 108 ∷ 111 ∷ 32 ∷ 116 ∷ 104 ∷ 105 ∷ 115 ∷ 32 ∷ 105 ∷ 115 ∷ 32 ∷ 107 ∷ 101 ∷ 114
    ∷ 110 ∷ 101 ∷ 108 ∷ 46 ∷ []

-- kfree
unfoldable pub kfree : ℕ → State → State
kfree p s = record s { infos = update s.infos p none }

-- `if (size > 0) { free_page(mp_info->data); kfree(mp_info); }`
unfoldable pub release_old : State → Run State
release_old s =
    let freed = data_of s.mp_info s >>= λ a. free_page a s >>= λ t. ok (kfree s.mp_info t) in
    if lt_int (pos 0) s.size then freed else ok s

-- `tmp` is what sscanf leaves in the variable; `got` and `got_page` are what kmalloc and
-- get_zeroed_page return. Writing through NULL is a fault.
unfoldable pub size_store : (tmp : ℤ) → (got got_page : ℕ) → State → Run State
size_store tmp got got_page s =
    let renewed = release_old s >>= λ t.
    if got == 0
    then fault
    else if got_page == 0
    then fault
    else ok (record t {
      size = tmp;
      mp_info = got;
      infos = update t.infos got (some got_page);
      pages = update t.pages got_page (some (record { text = hello; refs = 1 }));
    }) in
    if lt_int s.size tmp && (s.count == 0) then renewed else ok s

-- `area` is the physical address of `kmalloc_area`, and `limit` is PAGES; both are not declared in
-- the file. The result, and the page and size that remap_pfn_range is asked for; `ret` is its answer.
unfoldable pub mmap_mmap : (area limit : ℕ) → (ret : ℤ) → (vm_start vm_end : ℕ) → ℤ × Option (ℕ × ℕ)
mmap_mmap area limit ret vm_start vm_end =
    let bytes = sub64 vm_end vm_start in
    if ltb (limit * page_size) bytes then (neg 5, none) else elim ret [
      | negsuc e ↦ (negsuc e, some (area / page_size, bytes))
      | pos n ↦ (pos 0, some (area / page_size, bytes))
    ]

-- The result, and the page that is handed out, with one more hold on it.
unfoldable pub mmap_fault : (vm_private_data : ℕ) → State → Run (ℤ × Option ℕ × State)
mmap_fault vm_private_data s =
    let t = record s { mp_info = vm_private_data } in
    data_of vm_private_data t >>= λ a.
    let handed : Run (ℤ × Option ℕ × State) = elim (t.pages a) [
      | none ↦ fault
      | some g ↦ ok (
        pos 0,
        some a,
        record t { pages = update t.pages a (some (record g { refs = g.refs + 1 })) },
      )
    ] in
    if a == 0 then ok (neg 1, none, t) else handed
