-- ===== src/SharedPage/Closing.antt =====
-- ex7_ver2.c: every close gives the one page back.
use lkms.Prelude.{
  ℕ, ◌≡◌, ◌≢◌, refl, arith, ◌⊎◌, inl, inr, ◌==◌, ==-self, ==_of_ne, true, none, some, ℤ, pos,
}
use lkms.Kernel.Run.{fault, Ends, ends, ◌>>=◌}
use lkms.SharedPage.{State, update, data_of, free_page, char_open, char_close}
use lkms.SharedPage.Paged.{lt_int, release_old, size_store}
use lkms.SharedPage.Sizes.{InUse, nothing, one, data_of-run, free_page-last}

free_page-fault : (a : ℕ) (s : State) → a ≢ 0 → s.pages a ≡ none → free_page a s ≡ fault
unfolding free_page
free_page-fault a s n e = rw (free_page, ==_of_ne a 0 n, e) refl

data_of-fault : (p : ℕ) (s : State) → s.infos p ≡ none → data_of p s ≡ fault
unfolding data_of
data_of-fault p s e = rw (data_of, e) refl

-- What the next steps come to once the page is given back: closing another open file, and a larger
-- `size` while no mapping is counted.
abbrev pub NextFaults : (private_data : ℕ) → State → Type 0
NextFaults private_data t =
    (char_close private_data t ≡ fault)
    × ((tmp : ℤ) (got got_page : ℕ)
        → lt_int t.size tmp ≡ true
        → t.count ≡ 0
        → size_store tmp got got_page t ≡ fault)

closed-NextFaults :
    (s : State) (page : ℕ)
    → lt_int (pos 0) s.size ≡ true
    → s.mp_info ≢ 0
    → page ≢ 0
    → s.infos s.mp_info ≡ some page
    → s.pages page ≡ none
    → NextFaults s.mp_info s
unfolding char_close size_store release_old
closed-NextFaults s page positive n n2 info gone = (
  rw (char_close, data_of-run s.mp_info page s n info, ◌>>=◌, free_page-fault page s n2 gone) refl,
  λ tmp got got_page larger free.
      let unmapped : (s.count == 0) ≡ true = ground arith in
      rw
        (
          size_store,
          larger,
          unmapped,
          release_old,
          positive,
          data_of-run s.mp_info page s n info,
          ◌>>=◌,
          free_page-fault page s n2 gone,
        )
        refl,
)

-- A file that is opened while nothing is in use cannot be closed without a fault. If an object and
-- its page are in use, a file that is opened then can be closed; but then closing a second open
-- file is a fault, and so is a write of a larger number to `size` while no mapping is counted.
pub char_open-char_close_faults :
    (s : State)
    → InUse s
    → ((s.size ≡ pos 0) × (char_close (char_open s).1 s ≡ fault))
      ⊎ ((lt_int (pos 0) s.size ≡ true)
          × Ends
              (λ (r, private_data, t). (r ≡ pos 0) × NextFaults (char_open s).1 t)
              (char_close (char_open s).1 s))
unfolding char_open char_close
char_open-char_close_faults s (nothing e infos pages) =
    inl (e, rw (char_close, data_of-fault s.mp_info s (infos s.mp_info)) refl)
char_open-char_close_faults s (one positive page n n2 info held infos pages) =
    let t : State = record s { pages = update s.pages page none } in
    inr (
      positive,
      rw
          (
            char_close,
            data_of-run s.mp_info page s n info,
            ◌>>=◌,
            free_page-last page s n2 held,
            ◌>>=◌,
          )
          (ends (refl, closed-NextFaults t page positive n n2 info (rw (==-self page) refl))),
    )
