-- ===== src/SharedFile/Examples.antt =====
-- ex6_ver2.c and ex6.c, the theorems at concrete data.
use lkms.Prelude.{
  ℕ, pos, replicate, length-replicate, page_size, ◌≡◌, refl, none, some, [], ◌∷◌, false, arith,
}
use lkms.Kernel.Run.{ok, fault, Ends}
use lkms.SharedFile.{Page, cleanup, File, VmArea, Device, update, c_string}
use lkms.SharedFile.TwoPages as TwoPages
use lkms.SharedFile.TwoPages.{page_1, Overwritten, char_open-Overwritten}
use lkms.SharedFile.TwoPages.Closed.{open_close, open_close-then_cleanup}
use lkms.SharedFile.Mapping.{Shared, open_map_touch, open_map_touch-Shared}

-- Nothing is in use yet.
abbrev empty : Device
empty = record { infos = λ p. none; pages = λ p. none; global_var = 0 }

-- A file named "my".
abbrev my : File
my = record { name = 109 ∷ 121 ∷ []; private_data = 0 }

abbrev area : VmArea
area = record { has_ops = false; is_reserved = false; vm_private_data = 0 }

c_string_test : c_string (101 ∷ 0 ∷ []) ≡ ok (101 ∷ [])
unfolding c_string
c_string_test = refl

open_map_touch-Shared_example :
    Ends (Shared 16 5 4096 my.name empty) (open_map_touch 16 5 4096 my area empty)
open_map_touch-Shared_example =
    open_map_touch-Shared 16 5 4096 my area empty (omega arith) (omega arith) (omega arith)
      (omega arith)

-- The page at 8192 is another's.
abbrev neighbour : Page
neighbour = record { bytes = replicate page_size 7; refs = 2 }

abbrev in_use : Device
in_use = record {
  infos = λ p. none;
  pages = update (λ p. none) 8192 (some neighbour);
  global_var = 0;
}

char_open-Overwritten_example :
    Ends
      (Overwritten 16 5 4096 (1, 2) (3, 4) my.name neighbour in_use)
      (TwoPages.char_open 16 5 4096 (1, 2) (3, 4) my in_use)
char_open-Overwritten_example =
    char_open-Overwritten 16 5 4096 (1, 2) (3, 4) my neighbour in_use (omega arith) (omega arith)
      refl (length-replicate {A = ℕ} page_size 7) (omega arith)

open_close-then_cleanup_example :
    Ends
      (λ (text, r, f1, t).
        (text ≡ page_1) × (r ≡ pos 0) × (t.pages 4096 ≡ none) × (cleanup t ≡ fault))
      (open_close 16 5 4096 (1, 2) (3, 4) my in_use)
open_close-then_cleanup_example =
    open_close-then_cleanup 16 5 4096 (1, 2) (3, 4) my neighbour in_use (omega arith) (omega arith)
      refl (length-replicate {A = ℕ} page_size 7) (omega arith)
