-- ===== src/SharedPage/Examples.antt =====
-- ex7_ver2.c and ex77.c at concrete data: an instance of each theorem.
use lkms.Prelude.{◌≡◌, ◌⊎◌, refl, true, false, none, some, List, [], ◌∷◌, pos, arith}
use lkms.Kernel.Run.{fault, Ends}
use lkms.SharedPage.{State, update, char_open, char_close}
use lkms.SharedPage.Paged.{lt_int}
use lkms.SharedPage.Counted.{VmArea}
use lkms.SharedPage.Sizes.{InUse, nothing, one, fresh_page, Write, run_writes, run_writes-Stored}
use lkms.SharedPage.Flags.{
  Event, mapped, unmapped, wrote, View, Shows, run_events, run_events-Shows,
}
use lkms.SharedPage.Closing.{NextFaults, char_open-char_close_faults}

abbrev loaded : State
loaded = record {
  flag = pos 0;
  size = pos 0;
  count = 0;
  mp_info = 0;
  major_no = pos 250;
  locked = false;
  infos = λ p. none;
  pages = λ a. none;
}

abbrev three_writes : List Write
three_writes =
    record { tmp = pos 2; got = 64; got_page = 4096 }
    ∷ record { tmp = pos 5; got = 96; got_page = 8192 }
    ∷ record { tmp = pos 3; got = 96; got_page = 8192 }
    ∷ []

loaded-InUse : InUse loaded
loaded-InUse = nothing refl (λ p. refl) (λ a. refl)

run_writes-Stored_example :
    Ends (λ t. InUse t × (t.size ≡ pos 5) × (t.flag ≡ pos 0)) (run_writes three_writes loaded)
run_writes-Stored_example = run_writes-Stored three_writes loaded refl (omega arith) loaded-InUse

abbrev area : VmArea
area = record { has_ops = false; is_reserved = false; vm_private_data = 0 }

-- The 0 that is written while the page is mapped does not count.
abbrev mapped_once : List Event
mapped_once = wrote (pos 1) ∷ mapped 64 area ∷ wrote (pos 0) ∷ unmapped ∷ []

abbrev unmapped_view : View
unmapped_view = record { flag = pos 0; mappings = 0 }

run_events-Shows_example :
    Shows (record { flag = pos 1; mappings = 0 }) (run_events mapped_once loaded)
run_events-Shows_example =
    run_events-Shows mapped_once unmapped_view loaded (omega arith) (omega arith)
      (record { flag = refl; count = refl })

abbrev shared : State
shared = record loaded {
  size = pos 1;
  mp_info = 64;
  infos = update (λ p. none) 64 (some 4096);
  pages = update (λ a. none) 4096 (some fresh_page);
}

shared-InUse : InUse shared
shared-InUse =
    one refl 4096 (omega arith) (omega arith) refl refl (λ p ne. ground arith)
      (λ a ne. ground arith)

char_open-char_close_faults_example :
    ((shared.size ≡ pos 0) × (char_close (char_open shared).1 shared ≡ fault))
    ⊎ ((lt_int (pos 0) shared.size ≡ true)
        × Ends
            (λ (r, private_data, t). (r ≡ pos 0) × NextFaults (char_open shared).1 t)
            (char_close (char_open shared).1 shared))
char_open-char_close_faults_example = char_open-char_close_faults shared shared-InUse
