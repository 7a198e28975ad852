-- ===== src/KmallocMap/Examples.antt =====
-- ex7.c and new_st.c at concrete data: an instance of each theorem.
use lkms.Prelude.{
  ℕ, ◌+◌, ◌-◌, ◌*◌, ◌≡◌, ◌<◌, ◌≤◌, ◌⊎◌, refl, true, false, List, [], ◌∷◌, pos, neg, none, some,
  arith, replicate, sub64, page_size,
}
use lkms.Kernel.Run.{ok, Ends}
use lkms.KmallocMap.{State, page_align, decimal, char_mmap}
use lkms.KmallocMap.Pages.{IsReady, texts_from}
use lkms.KmallocMap.Sessions.{Printing-init-char_release, char_mmap_bounds}
use lkms.KmallocMap.Printing

abbrev unloaded : State
unloaded = record {
  kmalloc_ptr = 0;
  kmalloc_area = 0;
  end = 0;
  major_number = pos 0;
  memory = λ a. 255;
  reserved = λ p. false;
  allocated = false;
}

abbrev stack : List ℕ
stack = replicate 50 170

-- kmalloc's address 10000 is rounded up to 12288.
page_align_test : page_align 10000 ≡ 12288
unfolding page_align
page_align_test = refl

page_text_test : decimal 16 ≡ 49 ∷ 54 ∷ []
unfolding decimal
page_text_test = refl

Printing-init-char_release_example :
    Ends
      (λ (r, t). (r ≡ pos 0) × (Printing.char_release t ≡ ok (texts_from 0 16, pos 0)))
      (Printing.init 10000 (pos 250) stack unloaded)
Printing-init-char_release_example =
    Printing-init-char_release 10000 (pos 250) stack unloaded (omega arith) (omega arith) refl refl

abbrev loaded : State
loaded = record unloaded {
  kmalloc_ptr = 10000;
  kmalloc_area = 12288;
  major_number = pos 250;
  allocated = true;
}

loaded-IsReady : IsReady loaded
loaded-IsReady = record { used = refl; above = omega arith; near = omega arith; low = omega arith }

char_mmap_bounds_example :
    ((char_mmap (λ a. a - 4096) (neg 12) 4096 12288 loaded ≡ (neg 5, none))
      × (16 * page_size < sub64 12288 4096))
    ⊎ ((page : ℕ) × (char_mmap (λ a. a - 4096) (neg 12) 4096 12288 loaded
          ≡ (neg 12, some (page, sub64 12288 4096)))
        × (page * page_size + 4096 ≡ 12288)
        × (sub64 12288 4096 ≤ 16 * page_size)
        × (12288 + sub64 12288 4096 ≤ 10000 + 18 * page_size))
char_mmap_bounds_example =
    char_mmap_bounds 4096 (neg 12) 4096 12288 loaded loaded-IsReady refl refl (omega arith)
