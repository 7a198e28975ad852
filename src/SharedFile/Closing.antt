-- ===== src/SharedFile/Closing.antt =====
-- ex6_ver2.c: closing files. The text printed last is read at `global_var`, the page of the file
-- that was opened last.
use lkms.Prelude.{
  ℕ, ◌<◌, ◌≡◌, ◌≢◌, refl, ◌∙◌, sym, ap, ==_of_ne, none, some, List, ◌++◌, All, pos, length,
}
use lkms.Kernel.Run.{Run, ok, fault, Ends, ends, Ends->>=, ◌>>=◌}
use lkms.SharedFile.{
  File, VmArea, Device, Page, MmapInfo, memcpy, c_string, hello, char_open, char_mmap, mmap_open,
  mmap_close, mmap_fault, update, info_at, page_at,
}
use lkms.SharedFile.{char_close, free_page, print_global, cleanup}
use lkms.SharedFile.Text.{greets}
use lkms.SharedFile.Mapping.{
  info_at-run, page_at-run, update_self, update_other, opened, char_open-run,
}

-- What `free_page` leaves of a page that is held once: nothing.
free_page-last :
    (p : ℕ) (bytes : List ℕ) (d : Device)
    → p ≢ 0
    → d.pages p ≡ some (record { bytes = bytes; refs = 1 })
    → free_page p d ≡ ok (record d { pages = update d.pages p none })
unfolding free_page
free_page-last p bytes d n e = rw (free_page, page_at-run p _ d e n, ◌>>=◌) refl

print_global-freed :
    (d : Device) → d.global_var ≢ 0 → d.pages d.global_var ≡ none → print_global d ≡ fault
unfolding print_global lkms.SharedFile.page_at
print_global-freed d n e =
    rw (print_global, ==_of_ne d.global_var 0 n, lkms.SharedFile.page_at, e) refl

print_global-text :
    (d : Device) (g : Page) (s : List ℕ)
    → d.global_var ≢ 0
    → d.pages d.global_var ≡ some g
    → c_string g.bytes ≡ ok s
    → print_global d ≡ ok s
unfolding print_global
print_global-text d g s n e text =
    rw (print_global, ==_of_ne d.global_var 0 n, page_at-run d.global_var g d e n, ◌>>=◌, text) refl

abbrev closed : (object p : ℕ) → Device → Device
closed object p d = record d { infos = update d.infos object none; pages = update d.pages p none }

-- Closing the file that was opened last, once no mapping holds its page, is a fault: the page is
-- given back first and then read.
pub char_close-reads_freed :
    (f : File) (reference p : ℕ) (bytes : List ℕ) (d : Device)
    → f.private_data ≢ 0
    → p ≢ 0
    → d.infos f.private_data ≡ some (record { data_at = p; reference = reference })
    → d.pages p ≡ some (record { bytes = bytes; refs = 1 })
    → d.global_var ≡ p
    → char_close f d ≡ fault
unfolding char_close
char_close-reads_freed f reference p bytes d n n2 e g latest =
    let t = closed f.private_data p d in
    rw (char_close, info_at-run f.private_data _ d e n, ◌>>=◌, free_page-last p bytes d n2 g, ◌>>=◌)
      (ap (λ r. r >>= λ text. ok (text, pos 0, record f { private_data = 0 }, t))
        (print_global-freed t (λ z. n2 (sym latest ∙ z))
          (ap t.pages latest ∙ update_self d.pages p none)))

-- The device once a file is closed whose object is at `p` and whose page is at `q`.
pub record Closed (p q : ℕ) (d t : Device) : Type 0 where
  pub info : t.infos p ≡ none
  pub page : t.pages q ≡ none
  pub other_infos : (r : ℕ) → r ≢ p → t.infos r ≡ d.infos r
  pub other_pages : (r : ℕ) → r ≢ q → t.pages r ≡ d.pages r
  pub global_var : t.global_var ≡ d.global_var

-- Closing another file than the one opened last, once no mapping holds its page, gives back its
-- object and its page and nothing else, and prints the text of the one opened last.
pub char_close-Closed :
    (f : File) (reference p : ℕ) (bytes : List ℕ) (g : Page) (text : List ℕ) (d : Device)
    → f.private_data ≢ 0
    → p ≢ 0
    → d.infos f.private_data ≡ some (record { data_at = p; reference = reference })
    → d.pages p ≡ some (record { bytes = bytes; refs = 1 })
    → d.global_var ≢ p
    → d.global_var ≢ 0
    → d.pages d.global_var ≡ some g
    → c_string g.bytes ≡ ok text
    → Ends
        (λ (shown, r, f', t).
          (shown ≡ text) × (r ≡ pos 0) × (f'.private_data ≡ 0) × Closed f.private_data p d t)
        (char_close f d)
unfolding char_close
char_close-Closed f reference p bytes g text d n n2 e held other n3 live s =
    let t = closed f.private_data p d in
    let alive = update_other d.pages p none d.global_var (λ z. other (sym z)) ∙ live in
    rw
      (
        char_close,
        info_at-run f.private_data _ d e n,
        ◌>>=◌,
        free_page-last p bytes d n2 held,
        ◌>>=◌,
        print_global-text t g text n3 alive s,
        ◌>>=◌,
      )
      (ends (
        refl,
        refl,
        refl,
        record {
          info = update_self d.infos f.private_data none;
          page = update_self d.pages p none;
          other_infos = λ r ne. update_other d.infos f.private_data none r (λ z. ne (sym z));
          other_pages = λ r ne. update_other d.pages p none r (λ z. ne (sym z));
          global_var = refl;
        },
      ))

-- Two files are opened and the first is closed: the text that is printed, the second file, and the
-- device then.
abbrev pub open_two_close_first :
    (got left got_page : ℕ)
    → File
    → (got2 left2 got_page2 : ℕ) → File
    → Device
    → Run (List ℕ × File × Device)
open_two_close_first got left got_page a got2 left2 got_page2 b d =
    char_open got left got_page a d >>= λ (_, a1, d1).
    char_open got2 left2 got_page2 b d1 >>= λ (_, b1, d2).
    char_close a1 d2 >>= λ (text, _, _, d3). ok (text, b1, d3)

-- If memory is given out for both and at different addresses, and the names have fewer than 4064
-- bytes and no NUL, then two files can be opened and the first be closed without a fault; what is
-- printed is the greeting with the second file's name; and closing the second is then a fault.
pub open_two_close_first-then_faults :
    (got left got_page : ℕ) (a : File) (got2 left2 got_page2 : ℕ) (b : File) (d : Device)
    → got ≢ 0
    → got_page ≢ 0
    → got2 ≢ 0
    → got_page2 ≢ 0
    → got2 ≢ got
    → got_page2 ≢ got_page
    → length a.name < 4064
    → length b.name < 4064
    → All (λ c. c ≢ 0) a.name
    → All (λ c. c ≢ 0) b.name
    → Ends
        (λ (text, b1, t). (text ≡ hello ++ b.name) × (char_close b1 t ≡ fault))
        (open_two_close_first got left got_page a got2 left2 got_page2 b d)
open_two_close_first-then_faults got left got_page a got2 left2 got_page2 b d n p n2 p2 ne pne sa sb
      za zb =
    let ga = greets a.name sa za in
    let gb = greets b.name sb zb in
    let d1 = opened got left got_page ga.bytes d in
    let d2 = opened got2 left2 got_page2 gb.bytes d1 in
    let a1 : File = record a { private_data = got } in
    let b1 : File = record b { private_data = got2 } in
    rw
      (
        char_open-run got left got_page a d n p ga,
        ◌>>=◌,
        char_open-run got2 left2 got_page2 b d1 n2 p2 gb,
        ◌>>=◌,
      )
      (Ends->>=
        (char_close-Closed a1 left got_page ga.bytes (record { bytes = gb.bytes; refs = 1 })
          (hello ++ b.name) d2 n p (update_other d1.infos got2 _ got ne ∙ update_self d.infos got _)
          (update_other d1.pages got_page2 _ got_page pne ∙ update_self d.pages got_page _) pne p2
          (update_self d1.pages got_page2 _) gb.text)
        (λ (text, r, f, t) (same, _, _, c). ends (
          same,
          char_close-reads_freed b1 left2 got_page2 gb.bytes t n2 p2
              (c.other_infos got2 ne ∙ update_self d1.infos got2 _)
              (c.other_pages got_page2 pne ∙ update_self d1.pages got_page2 _) c.global_var,
        )))

-- Opening a file and closing it, with no mapping left and no other file opened in between, is a
-- fault, if memory is given out and the name has fewer than 4064 bytes and no NUL.
pub open-close_faults :
    (got left got_page : ℕ) (f : File) (d : Device)
    → got ≢ 0
    → got_page ≢ 0
    → length f.name < 4064
    → All (λ c. c ≢ 0) f.name
    → (char_open got left got_page f d >>= λ (_, f1, d1). char_close f1 d1) ≡ fault
open-close_faults got left got_page f d n p small nonzero =
    let g = greets f.name small nonzero in
    let d1 = opened got left got_page g.bytes d in
    let f1 : File = record f { private_data = got } in
    rw (char_open-run got left got_page f d n p g, ◌>>=◌)
      (char_close-reads_freed f1 left got_page g.bytes d1 n p (update_self d.infos got _)
        (update_self d.pages got_page _) refl)
