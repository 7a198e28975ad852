-- ===== src/KmallocMap/Sessions.antt =====
-- ex7.c and new_st.c: loading the module, and what is printed and mapped afterwards.
use lkms.Prelude.{
  ℕ, Bool-cases, ◌+◌, ◌-◌, ◌*◌, ◌/◌, ◌%◌, ◌^◌, ◌≤◌, ◌<◌, ◌≡◌, ◌≢◌, refl, ◌∙◌, sym, ap, arith,
  ==_of_ne, ◌⊎◌, inl, inr, ltb, true, false, List, ℤ, pos, neg, negsuc, ◌==ℤ◌, none, some, length,
  add64, sub64, page_size,
}
use mathlib.Core.Path.{subst}
use lkms.Kernel.Run.{ok, Ends, ends, Ends->>=, ◌>>=◌}
use lkms.KmallocMap.{State, page_limit, page_align, print_pages, char_mmap}
use lkms.KmallocMap.Pages.{
  IsReady, Texts, texts_from, page_align_bounds, reserve_pages-Reserves, Reserves-IsReady,
  print_pages-Texts,
}
use lkms.KmallocMap.Shown.{page_at, Shows, Printing-write_pages, Clearing-write_pages}
use lkms.KmallocMap.Printing
use lkms.KmallocMap.Clearing

page_at_zero : (s : State) → s.kmalloc_area ≡ page_at 0 s
page_at_zero s = omega arith

area_end :
    {t : State}
    → IsReady t
    → add64 t.kmalloc_area (page_limit * page_size) ≡ t.kmalloc_area + page_limit * page_size
area_end ready = omega (arith, ready.near, ready.low)

-- The loop as `init` calls it.
at_start :
    (P : (i end : ℕ) → Type 0) (s : State)
    → IsReady s
    → P (page_at 0 s) (s.kmalloc_area + page_limit * page_size)
    → P s.kmalloc_area (add64 s.kmalloc_area (page_limit * page_size))
at_start P s ready p =
    subst (λ e. P s.kmalloc_area e) (sym (area_end ready))
      (subst (λ a. P a (s.kmalloc_area + page_limit * page_size)) (sym (page_at_zero s)) p)

none_shown : (s : State) → Texts 0 s
none_shown s j h = absurd (omega arith)

Printing-writes :
    (stack : List ℕ) (s : State)
    → IsReady s
    → length stack ≡ 50
    → Ends (Shows s) (
        Printing.write_pages 17 s.kmalloc_area
          (add64 s.kmalloc_area (page_limit * page_size))
          1
          stack
          s)
Printing-writes stack s ready full =
    at_start (λ i e. Ends (Shows s) (Printing.write_pages 17 i e 1 stack s)) s ready
      (Printing-write_pages 16 17 0 stack s ready (none_shown s) full (omega arith) refl)

Clearing-writes :
    (stack : List ℕ) (s : State)
    → IsReady s
    → length stack ≡ 50
    → Ends (Shows s) (
        Clearing.write_pages 17 s.kmalloc_area
          (add64 s.kmalloc_area (page_limit * page_size))
          1
          stack
          s)
Clearing-writes stack s ready full =
    at_start (λ i e. Ends (Shows s) (Clearing.write_pages 17 i e 1 stack s)) s ready
      (Clearing-write_pages 16 17 0 stack s ready (none_shown s) full (omega arith) refl)

-- What is printed up to the end of the area.
print_pages-shown :
    (s : State)
    → IsReady s
    → Texts 16 s
    → print_pages 17 s.kmalloc_area (add64 s.kmalloc_area (page_limit * page_size)) s
      ≡ ok (texts_from 0 16)
print_pages-shown s ready texts =
    ap (λ e. print_pages 17 s.kmalloc_area e s) (area_end ready) ∙ print_pages-Texts s ready texts

-- The texts as ex7.c prints them, up to the `end` that `init` has kept.
printed :
    (s t : State)
    → s.end ≡ add64 s.kmalloc_area (page_limit * page_size)
    → Shows s t
    → print_pages 17 t.kmalloc_area t.end t ≡ ok (texts_from 0 16)
printed s t e shown =
    ap (λ e. print_pages 17 t.kmalloc_area e t)
      (shown.end ∙ e ∙ ap (λ a. add64 a (page_limit * page_size)) (sym shown.area))
    ∙ print_pages-shown t shown.ready shown.texts

module _ (got : ℕ) (major : ℤ) (stack : List ℕ) (s : State) (memory : got ≢ 0)
    (low : got + (page_limit + 2) * page_size ≤ 2 ^ 64) (registered : (major ==ℤ pos 0) ≡ false)
    (full : length stack ≡ 50) where
  -- The state when the loops begin.
  abbrev allocated : State
  allocated = record s {
    kmalloc_ptr = got;
    allocated = true;
    kmalloc_area = page_align got;
    major_number = major;
  }

  allocated-IsReady : IsReady allocated
  allocated-IsReady =
      let bounds = page_align_bounds got low in
      record { used = refl; above = bounds.1; near = bounds.2; low = low }

  -- If kmalloc gives memory that does not reach past the top of the address space, and
  -- register_chrdev does not return 0, then ex7.c's `init` returns 0, and closing the device
  -- prints the texts of the 16 pages, "… writing on page 1" to "… writing on page 16", in order.
  pub Printing-init-char_release :
      Ends
        (λ (r, t). (r ≡ pos 0) × (Printing.char_release t ≡ ok (texts_from 0 16, pos 0)))
        (Printing.init got major stack s)
  unfolding Printing.init Printing.char_release
  Printing-init-char_release =
      rw (Printing.init, ==_of_ne got 0 memory, registered)
        (Ends->>= (reserve_pages-Reserves allocated) (λ s2 r.
          let ready = Reserves-IsReady r allocated-IsReady in
          let s3 : State = record s2 { end = add64 s2.kmalloc_area (page_limit * page_size) } in
          let ready3 : IsReady s3 = record {
            used = ready.used;
            above = ready.above;
            near = ready.near;
            low = ready.low;
          } in
          Ends->>= (Printing-writes stack s3 ready3 full) (λ t shown.
            ends (refl, rw (Printing.char_release, printed s3 t refl shown, ◌>>=◌) refl))))

  -- new_st.c's `init` under the same conditions; its pages are printed when the module is unloaded,
  -- which gives the memory back.
  pub Clearing-init-cleanup :
      Ends
        (λ (r, t).
          (r ≡ pos 0)
          × Ends
              (λ (texts, u). (texts ≡ texts_from 0 16) × (u.allocated ≡ false))
              (Clearing.cleanup t))
        (Clearing.init got major stack s)
  unfolding Clearing.init Clearing.cleanup
  Clearing-init-cleanup =
      rw (Clearing.init, ==_of_ne got 0 memory, registered)
        (Ends->>= (reserve_pages-Reserves allocated) (λ s2 r.
          let ready = Reserves-IsReady r allocated-IsReady in
          let same : add64 (page_align got) (page_limit * page_size)
              ≡ add64 s2.kmalloc_area (page_limit * page_size) =
            ap (λ a. add64 a (page_limit * page_size)) (sym r.area) in
          rw same (
            Ends->>= (Clearing-writes stack s2 ready full) (λ t shown. ends (
              refl,
              rw (Clearing.cleanup, print_pages-shown t shown.ready shown.texts, ◌>>=◌)
                  (Ends->>= (reserve_pages-Reserves t) (λ u kept. ends (refl, refl))),
            )))))

-- What `char_mmap` returns of the answer of remap_pfn_range: a negative number, an error, or 0.
abbrev pub error_of : ℤ → ℤ
error_of (pos n) = pos 0
error_of (negsuc e) = negsuc e

-- Whatever area of memory a process asks for, `char_mmap` of a loaded module does one of two things.
-- It returns -EIO and asks for nothing, and then the area is longer than 16 pages. Or the area has at
-- most 16 pages, and it asks remap_pfn_range for the whole area, from the first page of the module's
-- memory on (physical addresses are the virtual ones less `page_offset`, a multiple of the page
-- size), all of it in the 18 pages that kmalloc gave, and returns a negative answer as it is, and
-- else 0.
pub char_mmap_bounds :
    (page_offset : ℕ) (ret : ℤ) (vm_start vm_end : ℕ) (s : State)
    → IsReady s
    → s.kmalloc_area % page_size ≡ 0
    → page_offset % page_size ≡ 0
    → page_offset ≤ s.kmalloc_area
    → ((char_mmap (λ a. a - page_offset) ret vm_start vm_end s ≡ (neg 5, none))
        × (16 * page_size < sub64 vm_end vm_start))
      ⊎ ((page : ℕ) × (char_mmap (λ a. a - page_offset) ret vm_start vm_end s
            ≡ (error_of ret, some (page, sub64 vm_end vm_start)))
          × (page * page_size + page_offset ≡ s.kmalloc_area)
          × (sub64 vm_end vm_start ≤ 16 * page_size)
          × (s.kmalloc_area + sub64 vm_end vm_start ≤ s.kmalloc_ptr + 18 * page_size))
unfolding char_mmap
char_mmap_bounds page_offset ret vm_start vm_end s ready aligned offset low =
    elim (Bool-cases (ltb (page_limit * page_size) (sub64 vm_end vm_start))) [
      | inl large ↦ inl (rw (char_mmap, large) refl, ground arith)
      | inr small ↦
          let short : sub64 vm_end vm_start ≤ 16 * page_size = ground arith in
          let page : ℕ = (s.kmalloc_area - page_offset) / page_size in
          let first : page * page_size + page_offset ≡ s.kmalloc_area =
            omega (arith, aligned, offset, low) in
          let inside : s.kmalloc_area + sub64 vm_end vm_start ≤ s.kmalloc_ptr + 18 * page_size =
            omega (arith, ready.near, short) in
          inr (page, asked ret small, first, short, inside)
    ]
  where
    asked :
        (r : ℤ)
        → ltb (page_limit * page_size) (sub64 vm_end vm_start) ≡ false
        → char_mmap (λ a. a - page_offset) r vm_start vm_end s
          ≡ (error_of r, some ((s.kmalloc_area - page_offset) / page_size, sub64 vm_end vm_start))
    asked (pos n) small = rw (char_mmap, small) refl
    asked (negsuc n) small = rw (char_mmap, small) refl
