-- ===== src/KmallocMap.antt =====
-- Two modules that let user processes map memory from kmalloc: ex7.c (Printing; static_ex6_ver6.c is
-- the same file) and new_st.c (Clearing). Here stands what they share: the memory as a map from
-- addresses to bytes, the rounding up to a page, and the loops over the pages, which both files
-- write alike.
mod Bytes
mod Pages
mod Printing
mod Clearing
mod Shown
mod Sessions
mod Examples
use lkms.Prelude.{
  ℕ, zero, suc, ◌+◌, ◌-◌, ◌*◌, ◌/◌, ◌%◌, ◌==◌, leb, ltb, if◌then◌else◌, Bool, true, false, ◌&&◌,
  Option, none, some, List, [], ◌∷◌, ◌++◌, ℤ, pos, neg, negsuc, ◌==ℤ◌, add64, sub64, length, drop,
  replicate, page_size,
}
use lkms.Kernel.Run.{Run, ok, fault, out_of_fuel, ◌>>=◌}

-- PAGES
abbrev pub page_limit : ℕ
page_limit = 16

-- The modules' variables, the bytes of the memory, and which pages are marked reserved. The
-- memory that kmalloc gave is in use while `allocated` is set.
pub record State : Type 0 where
  pub kmalloc_ptr : ℕ
  pub kmalloc_area : ℕ
  pub end : ℕ
  pub major_number : ℤ
  pub memory : ℕ → ℕ
  pub reserved : ℕ → Bool
  pub allocated : Bool

-- `(ptr + PAGE_SIZE - 1) & PAGE_MASK`
pub page_align : ℕ → ℕ
page_align ptr = sub64 (add64 ptr page_size) 1 / page_size * page_size

-- `n` bytes at `a` lie in the memory from kmalloc, which is (PAGES + 2) pages long.
pub is_inside : (a n : ℕ) → State → Bool
is_inside a n s =
    s.allocated
    && (leb s.kmalloc_ptr a && leb (a + n) (s.kmalloc_ptr + (page_limit + 2) * page_size))

abbrev pub put : (ℕ → ℕ) → ℕ → ℕ → ℕ → ℕ
put m a v b = if a == b then v else m b

pub put_bytes : (a : ℕ) → List ℕ → (ℕ → ℕ) → ℕ → ℕ
put_bytes a [] m = m
put_bytes a (v ∷ vs) m = put_bytes (a + 1) vs (put m a v)

-- memcpy and memset to an address
pub store : (a : ℕ) → List ℕ → State → Run State
store a vs s =
    if is_inside a (length vs) s then ok (record s { memory = put_bytes a vs s.memory }) else fault

-- What %s prints from an address on: the bytes before the first NUL.
pub c_string : ℕ → (a : ℕ) → State → Run (List ℕ)
c_string zero a s = out_of_fuel
c_string (suc fuel) a s =
    let rest = c_string fuel (a + 1) s >>= λ text. ok (s.memory a ∷ text) in
    if is_inside a 1 s then (if s.memory a == 0 then ok [] else rest) else fault

-- "This is kernel : writing on page ", and what %d adds for a number below 100
abbrev pub writing_on_page : List ℕ
writing_on_page =
    84 ∷ 104 ∷ 105 ∷ 115 ∷ 32 ∷ 105 ∷ 115 ∷ 32 ∷ 107 ∷ 101 ∷ 114 ∷ 110 ∷ 101 ∷ 108 ∷ 32 ∷ 58 ∷ 32
    ∷ 119 ∷ 114 ∷ 105 ∷ 116 ∷ 105 ∷ 110 ∷ 103 ∷ 32 ∷ 111 ∷ 110 ∷ 32 ∷ 112 ∷ 97 ∷ 103 ∷ 101 ∷ 32 ∷ []

pub decimal : ℕ → List ℕ
decimal n = if ltb n 10 then (48 + n) ∷ [] else (48 + n / 10) ∷ (48 + n % 10) ∷ []

pub page_text : ℕ → List ℕ
page_text count = writing_on_page ++ decimal count

-- sprintf into an array: the text, a NUL, and behind them what was there before.
pub sprintf : (text buffer : List ℕ) → Run (List ℕ)
sprintf text buffer =
    if leb (length text + 1) (length buffer)
    then ok (text ++ (0 ∷ drop (length text + 1) buffer))
    else fault

-- `for (i = 0; i < PAGES * PAGE_SIZE; i += PAGE_SIZE) SetPageReserved(virt_to_page(area + i));`
pub reserve_pages : ℕ → (i : ℕ) → State → Run State
reserve_pages zero i s = out_of_fuel
reserve_pages (suc fuel) i s = elim (ltb i (page_limit * page_size)) [
  | true ↦ reserve_pages fuel (i + page_size) (record s {
    reserved = λ p. if (s.kmalloc_area + i) / page_size == p then true else s.reserved p;
  })
  | false ↦ ok s
]

-- `for (i = kmalloc_area; i < end; i += PAGE_SIZE)` with a printk of the text at each page
pub print_pages : ℕ → (i end : ℕ) → State → Run (List (List ℕ))
print_pages zero i e s = out_of_fuel
print_pages (suc fuel) i e s = elim (ltb i e) [
  | true ↦ c_string page_size i s >>= λ text.
      print_pages fuel (add64 i page_size) e s >>= λ texts. ok (text ∷ texts)
  | false ↦ ok []
]

-- `char_mmap`: its result, and what it asks remap_pfn_range for, the first page and the size;
-- `ret` is remap_pfn_range's answer.
pub char_mmap :
    (virt_to_phys : ℕ → ℕ) → (ret : ℤ) → (vm_start vm_end : ℕ) → State → ℤ × Option (ℕ × ℕ)
char_mmap virt_to_phys ret vm_start vm_end s =
    let size = sub64 vm_end vm_start in
    if ltb (page_limit * page_size) size then (neg 5, none) else elim ret [
      | negsuc e ↦ (negsuc e, some (virt_to_phys s.kmalloc_area / page_size, size))
      | pos n ↦ (pos 0, some (virt_to_phys s.kmalloc_area / page_size, size))
    ]
