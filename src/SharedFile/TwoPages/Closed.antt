-- ===== src/SharedFile/TwoPages/Closed.antt =====
-- ex6.c: a file that is opened and closed, and the removal of the module.
use lkms.Prelude.{
  ℕ, ◌+◌, ◌≤◌, ◌≡◌, ◌≢◌, refl, ◌∙◌, ap, ==_of_ne, ◌==◌, if◌then◌else◌, none, some, List, [], length,
  ℤ, pos, page_size,
}
use lkms.Kernel.Run.{Run, ok, fault, ◌>>=◌, Ends, ends, Ends-value}
use lkms.SharedFile.{
  File, Device, Page, update, info_at, page_at, c_string, print_global, free_page, cleanup,
}
use lkms.SharedFile.Mapping.{update_self, page_at-run, info_at-run}
use lkms.SharedFile.TwoPages.{page_1, char_open, char_close, char_open-Overwritten}

-- The file is opened and closed.
abbrev pub open_close :
    (got left got_page : ℕ)
    → (behind1 behind2 : ℕ × ℕ) → File
    → Device
    → Run (List ℕ × ℤ × File × Device)
open_close got left got_page behind1 behind2 f d =
    char_open got left got_page behind1 behind2 f d >>= λ (_, f1, d1). char_close f1 d1

-- What is printed of the text at `p`.
abbrev text_at : ℕ → Device → Run (List ℕ)
text_at p d = if p == 0 then ok [] else (page_at p d >>= λ g. c_string g.bytes)

print_global-run :
    (p : ℕ) (g : Page) (text : List ℕ) (d : Device)
    → d.global_var ≡ p
    → p ≢ 0
    → d.pages p ≡ some g
    → c_string g.bytes ≡ ok text
    → print_global d ≡ ok text
unfolding print_global
print_global-run p g text d latest n used reads =
    let here : text_at p d ≡ ok text = rw (==_of_ne p 0 n, page_at-run p g d used n, ◌>>=◌) reads in
    ap (λ q. text_at q d) latest ∙ here

print_global-freed :
    (p : ℕ) (d : Device) → d.global_var ≡ p → p ≢ 0 → d.pages p ≡ none → print_global d ≡ fault
unfolding print_global page_at
print_global-freed p d latest n freed =
    rw (print_global, latest, ==_of_ne p 0 n, page_at, freed) refl

free_page-last :
    (p : ℕ) (bytes : List ℕ) (d : Device)
    → p ≢ 0
    → d.pages p ≡ some (record { bytes = bytes; refs = 1 })
    → free_page p d ≡ ok (record d { pages = update d.pages p none })
unfolding free_page
free_page-last p bytes d n used = rw (free_page, page_at-run p _ d used n, ◌>>=◌) refl

-- If kmalloc and get_zeroed_page give memory, the name has at most 4064 bytes, and the page behind
-- the new one is in use, then a file that is opened and closed ends both without a fault: closing
-- prints the first greeting, returns 0 and gives the page back. But `global_var` is left as it is, so
-- that the removal of the module, which prints the text there, is a fault.
pub open_close-then_cleanup :
    (got left got_page : ℕ) (behind1 behind2 : ℕ × ℕ) (f : File) (g : Page) (d : Device)
    → got ≢ 0
    → got_page ≢ 0
    → d.pages (got_page + page_size) ≡ some g
    → length g.bytes ≡ page_size
    → length f.name ≤ 4064
    → Ends
        (λ (text, r, f1, t).
          (text ≡ page_1) × (r ≡ pos 0) × (t.pages got_page ≡ none) × (cleanup t ≡ fault))
        (open_close got left got_page behind1 behind2 f d)
unfolding char_close cleanup
open_close-then_cleanup got left got_page behind1 behind2 f g d n n2 used full small =
    let ((r, f1, d1), opened, o) =
      Ends-value
        (char_open-Overwritten got left got_page behind1 behind2 f g d n n2 used full small) in
    let found : info_at f1.private_data d1 ≡ ok (record { data_at = got_page; reference = left }) =
      ap (λ p. info_at p d1) o.private ∙ info_at-run got _ d1 o.infos n in
    let printed = print_global-run got_page _ page_1 d1 o.latest n2 o.own_page o.own_text in
    let freed = free_page-last got_page o.own d1 n2 o.own_page in
    let gone : Device = record d1 {
      pages = update d1.pages got_page none;
      infos = update d1.infos f1.private_data none;
    } in
    let dangling =
      print_global-freed got_page gone o.latest n2 (update_self d1.pages got_page none) in
    rw (opened, ◌>>=◌, char_close, printed, ◌>>=◌, found, ◌>>=◌, freed, ◌>>=◌)
      (ends (refl, refl, update_self d1.pages got_page none, rw (cleanup, dangling) refl))
