-- ===== src/Wss/Examples.antt =====
-- workingwss.c at concrete inputs: tests of the definitions, and an instance of each theorem.
use lkms.Prelude.{
  ℕ, suc, ◌+◌, ◌<◌, ◌≡◌, ◌≢◌, refl, true, false, none, some, List, [], ◌∷◌, arith, ltb,
  if◌then◌else◌, ==_of_ne,
}
use lkms.Kernel.Run.{ok, fault, Ends, ◌>>=◌}
use lkms.Kernel.Paging.{Ptes, descend, set_pte}
use lkms.Kernel.Flat.{FlatPte, flat_paging}
use lkms.Wss.{
  State, Task, Event, link, append, protect, unprotect, mark_entry, mark_page, mark_area,
  mark_areas, wss_marking, check_entry, check_page, page_check, happen, sleep, rounds_from, start,
  cleanup,
}
use lkms.Wss.Memory.{Heap, cell, load, store, Allocator}
use lkms.Wss.Append.{Chain, nil, cons}
use lkms.Wss.Marked.{MarkedAll}
use lkms.Wss.Mark.{wss_marking-Marked}
use lkms.Wss.Check.{calls, sleep_counts}
use lkms.Wss.Erase.{erase}
use lkms.Wss.Same.{seen, start-same}
use lkms.WssKeep.{start4}
use lkms.WssZero as Plain
use lkms.WssZero.Prints.{IsUser, HasMm}
use lkms.Wss.Cleanup.{start-cleanup_faults}

abbrev KHeap : Type 0
KHeap = Heap flat_paging

-- Above every address in use.
abbrev top : KHeap → ℕ
top [] = 0
top ((p, _) ∷ h) = p + top h

cell_above_top : (h : KHeap) (x : ℕ) → top h < x → cell flat_paging h x ≡ none
unfolding cell
cell_above_top [] x l = refl
cell_above_top ((p, n) ∷ h) x l = rw (==_of_ne p x (omega arith)) (cell_above_top h x (omega arith))

-- An allocator that never fails.
abbrev bump : Allocator flat_paging
bump = record {
  malloc = λ h. suc (top h);
  fresh = λ h _. cell_above_top h (suc (top h)) (omega arith);
}

bump_never_full : (h : KHeap) → suc (top h) ≢ 0
bump_never_full h = omega arith

abbrev bare : FlatPte
bare = record { is_present = false; is_protnone = false }

abbrev mapped : FlatPte
mapped = record { is_present = true; is_protnone = false }

abbrev marked : FlatPte
marked = record { is_present = false; is_protnone = true }

-- Pages 0 and 1 are present.
abbrev entries : Ptes flat_paging
entries p = if ltb p 3 then mapped else bare

abbrev process : Task flat_paging
process = record { pid = 7; mm = some 4; mmap = record { vm_start = 0; vm_end = 8192 } ∷ [] }

abbrev loaded : State flat_paging
loaded = record { ptes = entries; heap = []; head = 0; wss = 0; hooked = true }

-- One second: three pages are visited, two recorded; then a fault at page 0 and two at page 1.
abbrev second : Task flat_paging × List (Event flat_paging)
second = (process, calls flat_paging ((process, 0) ∷ (process, 4096) ∷ (process, 4100) ∷ []))

start_prints :
    (start flat_paging bump 30 7 (some process) (λ _. second) loaded >>= λ (out, t). ok out)
    ≡ ok (0 ∷ 3 ∷ 6 ∷ 9 ∷ 12 ∷ 15 ∷ 18 ∷ 21 ∷ 24 ∷ 27 ∷ [])
unfolding start rounds_from wss_marking mark_areas mark_area mark_page mark_entry append link load
    store cell protect sleep happen page_check check_page check_entry unprotect descend
start_prints = refl

wss_marking-Marked_example :
    Ends
      (MarkedAll flat_paging 4 (0 ∷ 4096 ∷ 8192 ∷ []) [] loaded)
      (wss_marking flat_paging bump 9 (some process) loaded)
wss_marking-Marked_example =
    wss_marking-Marked flat_paging bump bump_never_full 9 process 4 [] loaded refl (omega arith)
      (nil refl) (omega arith)

sleep_counts_example : Ends (λ t. t.wss ≡ 3) (sleep flat_paging 7 second.1 loaded)
unfolding descend
sleep_counts_example =
    sleep_counts flat_paging 7 ((process, 0) ∷ (process, 4096) ∷ (process, 4100) ∷ []) loaded refl
      (omega arith) (λ e. cc, (λ e. cc, (λ e. cc, tt)))

-- Page 1 has been marked.
abbrev hidden : State flat_paging
hidden = record loaded { ptes = set_pte flat_paging entries 2 marked }

abbrev one_node : State flat_paging
one_node = record loaded { heap = (1, record { addr = marked; next = 0 }) ∷ []; head = 1 }

one_node-Chain : Chain flat_paging one_node.heap 1 (marked ∷ [])
unfolding cell
one_node-Chain = cons {q = 0} (omega arith) refl (nil refl)

start-cleanup_faults_example :
    (start flat_paging bump 5 9 (some process) (λ _. second) loaded >>= λ (out, t).
    cleanup flat_paging 5 t)
    ≡ fault
start-cleanup_faults_example =
    start-cleanup_faults flat_paging bump 5 9 (some process) (λ _. second) loaded
      (λ ts e. ground arith) refl (omega arith)

abbrev plain_process : Plain.Task flat_paging
plain_process = record { pid = 7; mm = some 4; mmap = record { vm_start = 0; vm_end = 8192 } ∷ [] }

-- Each second the process touches page 1.
abbrev plain_touched : Plain.PageFault flat_paging
plain_touched = record { task = some plain_process; addr = 4096; pidd = 7 }

abbrev plain_touch : Plain.Event flat_paging
plain_touch = Plain.page_fault plain_touched

-- The kernel takes page 0 away.
abbrev plain_unmap : Plain.Event flat_paging
plain_unmap = Plain.kernel_sets 1 bare

plain_process-IsUser : IsUser flat_paging 30 plain_process
plain_process-IsUser = record { mm = 4; has_mm = refl; fit = omega arith }

plain_touch-HasMm : HasMm flat_paging plain_touch
plain_touch-HasMm ts e = (4, cc)

start-same_example :
    Ends
      (λ (out, t).
        start4 flat_paging 30 7
          (some plain_process)
          (λ i. (plain_process, plain_touch ∷ plain_unmap ∷ []))
          (erase flat_paging loaded)
        ≡ ok (out, erase flat_paging t))
      (start flat_paging bump 30 7
        (some process)
        (seen flat_paging (λ i. (plain_process, plain_touch ∷ plain_unmap ∷ [])))
        loaded)
start-same_example =
    start-same flat_paging bump bump_never_full 30 7 3
      (λ i. (plain_process, plain_touch ∷ plain_unmap ∷ [])) (λ i. plain_process-IsUser)
      (λ i. (plain_touch-HasMm, (tt, tt))) (λ i. omega arith) plain_process loaded refl refl
      (omega arith)
