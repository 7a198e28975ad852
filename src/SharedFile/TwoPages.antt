-- ===== src/SharedFile/TwoPages.antt =====
-- ex6.c: an earlier version of ex6_ver2.c whose `char_open` writes two greetings, the second behind
-- the page that it has got. The other functions are as in ex6_ver2.c, but `char_close` prints before
-- it gives the page back.
pub mod Closed
use lkms.Prelude.{
  ℕ, ◌+◌, ◌≤◌, ◌<◌, ◌≡◌, ◌≢◌, refl, sym, ◌∙◌, ap, arith, ==_of_ne, ◌==◌, if◌then◌else◌, none, some,
  List, [], ◌∷◌, ◌++◌, All, length, take, drop, replicate, length-replicate, length-append,
  length-drop, append_assoc, ℤ, pos, page_size,
}
use lkms.Kernel.Run.{Run, ok, fault, ◌>>=◌, Ends, ends, Ends-value}
use lkms.SharedFile.{
  File, Device, Page, MmapInfo, update, info_at, page_at, memcpy, c_string, print_global, free_page,
  cleanup,
}
use lkms.SharedFile.Text.{memcpy-run, memcpy-behind, c_string-prefix}
use lkms.SharedFile.Mapping.{update_self, update_other, update_twice, page_at-run, info_at-run}

-- "hello from kernel on page 1: " and "hello from kernel on page 2: "
abbrev pub page_1 : List ℕ
page_1 =
    104 ∷ 101 ∷ 108 ∷ 108 ∷ 111 ∷ 32 ∷ 102 ∷ 114 ∷ 111 ∷ 109 ∷ 32 ∷ 107 ∷ 101 ∷ 114 ∷ 110 ∷ 101
    ∷ 108 ∷ 32 ∷ 111 ∷ 110 ∷ 32 ∷ 112 ∷ 97 ∷ 103 ∷ 101 ∷ 32 ∷ 49 ∷ 58 ∷ 32 ∷ []

abbrev pub page_2 : List ℕ
page_2 =
    104 ∷ 101 ∷ 108 ∷ 108 ∷ 111 ∷ 32 ∷ 102 ∷ 114 ∷ 111 ∷ 109 ∷ 32 ∷ 107 ∷ 101 ∷ 114 ∷ 110 ∷ 101
    ∷ 108 ∷ 32 ∷ 111 ∷ 110 ∷ 32 ∷ 112 ∷ 97 ∷ 103 ∷ 101 ∷ 32 ∷ 50 ∷ 58 ∷ 32 ∷ []

-- The 32 bytes that are read from a literal of 29 characters: its NUL, and two bytes that lie behind
-- it.
abbrev pub literal : List ℕ → ℕ × ℕ → List ℕ
literal text (b, c) = text ++ (0 ∷ b ∷ c ∷ [])

-- memcpy to offset `i` of the page at `p`
pub write_page : (p i : ℕ) → (source : List ℕ) → Device → Run Device
write_page p i source d = page_at p d >>= λ g. memcpy i source g.bytes >>= λ bytes.
    ok (record d { pages = update d.pages p (some (record g { bytes = bytes })) })

-- One greeting, and the name of the file behind it.
pub greet : (p : ℕ) → (text name : List ℕ) → Device → Run Device
greet p text name d = write_page p 0 text d >>= λ d'. write_page p 32 name d'

-- `got` and `got_page` are new addresses, or NULL; `left` is what the new `reference` holds, and the
-- pairs are the bytes behind the two literals.
pub char_open :
    (got left got_page : ℕ) → (behind1 behind2 : ℕ × ℕ) → File → Device → Run (ℤ × File × Device)
char_open got left got_page behind1 behind2 f d =
    if got == 0
    then fault
    else if got_page == 0
    then fault
    else (greet got_page (literal page_1 behind1) f.name (record {
      infos = update d.infos got (some (record { data_at = got_page; reference = left }));
      pages = update d.pages got_page (some (record { bytes = replicate page_size 0; refs = 1 }));
      global_var = got_page;
    })
        >>= λ d1. greet (got_page + page_size) (literal page_2 behind2) f.name d1 >>= λ d2.
            ok (pos 0, record f { private_data = got }, d2))

pub char_close : File → Device → Run (List ℕ × ℤ × File × Device)
char_close f d = print_global d >>= λ text. info_at f.private_data d >>= λ i.
    free_page i.data_at d >>= λ d1. ok (
      text,
      pos 0,
      record f { private_data = 0 },
      record d1 { infos = update d1.infos f.private_data none },
    )

-- A page that holds a greeting, the two bytes behind it, the name of the file, and then what it held
-- before; and what %s prints of it.
pub record Greets (p : ℕ) (text : List ℕ) (behind : ℕ × ℕ) (name : List ℕ) (g : Page) (d t : Device)
    : Type 0 where
  pub bytes : List ℕ
  pub written : bytes ≡ literal text behind ++ (name ++ drop (length name) (drop 32 g.bytes))
  pub here : t.pages p ≡ some (record g { bytes = bytes })
  pub reads : c_string bytes ≡ ok text
  pub others : (q : ℕ) → p ≢ q → t.pages q ≡ d.pages q
  pub infos : t.infos ≡ d.infos
  pub global_var : t.global_var ≡ d.global_var

write_page-run :
    (p i : ℕ) (source bytes : List ℕ) (g : Page) (d : Device)
    → d.pages p ≡ some g
    → p ≢ 0
    → memcpy i source g.bytes ≡ ok bytes
    → write_page p i source d
      ≡ ok (record d { pages = update d.pages p (some (record g { bytes = bytes })) })
unfolding write_page
write_page-run p i source bytes g d e n copied =
    rw (write_page, page_at-run p g d e n, ◌>>=◌, copied) refl

greet-Greets :
    (p : ℕ) (text : List ℕ) (behind : ℕ × ℕ) (name : List ℕ) (g : Page) (d : Device)
    → d.pages p ≡ some g
    → p ≢ 0
    → length text ≡ 29
    → All (λ b. b ≢ 0) text
    → length g.bytes ≡ page_size
    → length name ≤ 4064
    → Ends (Greets p text behind name g d) (greet p (literal text behind) name d)
unfolding greet
greet-Greets p text (b, c) name g d e n count nonzero full small =
    let l = literal text (b, c) in
    let at32 : length l ≡ 32 = omega (arith, length-append text (0 ∷ b ∷ c ∷ []), count) in
    let rest = drop (0 + length l) g.bytes in
    let bytes = l ++ (name ++ drop (length name) rest) in
    let first = memcpy-run 0 l g.bytes (omega (arith, at32, full)) in
    let second : memcpy 32 name (l ++ rest) ≡ ok bytes =
      ap (λ i. memcpy i name (l ++ rest)) (sym at32)
      ∙ memcpy-behind l name rest
          (omega (arith, small, at32, full, length-drop (0 + length l) g.bytes)) in
    let d1 = record d { pages = update d.pages p (some (record g { bytes = l ++ rest })) } in
    let one = write_page-run p 0 l (l ++ rest) g d e n first in
    let two =
      write_page-run p 32 name bytes (record g { bytes = l ++ rest }) d1 (update_self d.pages p _) n
        second in
    rw (greet, one, ◌>>=◌, two)
      (ends (record {
        bytes = bytes;
        written =
            ap (λ i. l ++ (name ++ drop (length name) (drop i g.bytes))) {x = 0 + length l} {y = 32}
              (omega (arith, at32));
        here = update_self d1.pages p _;
        reads =
            ap c_string (append_assoc text (0 ∷ b ∷ c ∷ []) (name ++ drop (length name) rest))
            ∙ c_string-prefix text (b ∷ c ∷ (name ++ drop (length name) rest)) nonzero;
        others = λ q away. update_twice d.pages p _ _ q away;
        infos = refl;
        global_var = refl;
      }))

-- What `char_open` leaves: the file's page, and the page behind it, which is another's.
pub record Overwritten (got left got_page : ℕ) (behind1 behind2 : ℕ × ℕ) (name : List ℕ) (g : Page)
    (d : Device) (r : ℤ × File × Device) : Type 0 where
  pub result : r.0 ≡ pos 0
  pub private : r.1.private_data ≡ got
  pub own : List ℕ
  pub own_page : r.2.pages got_page ≡ some (record { bytes = own; refs = 1 })
  pub own_bytes :
      own ≡ literal page_1 behind1 ++ (name ++ drop (length name) (drop 32 (replicate page_size 0)))
  pub own_text : c_string own ≡ ok page_1
  pub next : List ℕ
  pub next_page : r.2.pages (got_page + page_size) ≡ some (record g { bytes = next })
  pub next_bytes : next ≡ literal page_2 behind2 ++ (name ++ drop (length name) (drop 32 g.bytes))
  pub next_text : c_string next ≡ ok page_2
  pub others : (q : ℕ) → got_page ≢ q → got_page + page_size ≢ q → r.2.pages q ≡ d.pages q
  pub infos : r.2.infos got ≡ some (record { data_at = got_page; reference = left })
  pub latest : r.2.global_var ≡ got_page

page_1_nonzero : All (λ b. b ≢ 0) page_1
page_1_nonzero = omega arith

page_2_nonzero : All (λ b. b ≢ 0) page_2
page_2_nonzero = omega arith

-- If kmalloc and get_zeroed_page give memory, the name has at most 4064 bytes, and the page behind
-- the new one is in use, opening ends without a fault and overwrites that page: it then holds the 32
-- bytes read from the second literal (with its NUL), the name, and behind them what it held before,
-- and whoever has it reads the second greeting there. The file's own page holds the 32 bytes of the
-- first literal, the name and zeros; it reads as the first greeting alone, without the name, which
-- stands behind the NUL. No further page is changed.
pub char_open-Overwritten :
    (got left got_page : ℕ) (behind1 behind2 : ℕ × ℕ) (f : File) (g : Page) (d : Device)
    → got ≢ 0
    → got_page ≢ 0
    → d.pages (got_page + page_size) ≡ some g
    → length g.bytes ≡ page_size
    → length f.name ≤ 4064
    → Ends
        (Overwritten got left got_page behind1 behind2 f.name g d)
        (char_open got left got_page behind1 behind2 f d)
unfolding char_open
char_open-Overwritten got left got_page behind1 behind2 f g d n n2 used full small =
    let zeroed : Page = record { bytes = replicate page_size 0; refs = 1 } in
    let d0 : Device = record {
      infos = update d.infos got (some (record { data_at = got_page; reference = left }));
      pages = update d.pages got_page (some zeroed);
      global_var = got_page;
    } in
    let next_ne : got_page ≢ got_page + page_size = omega arith in
    let (d1, first, own) = Ends-value (
      greet-Greets got_page page_1 behind1 f.name zeroed d0
        (update_self d.pages got_page (some zeroed)) n2 refl page_1_nonzero
        (length-replicate {A = ℕ} page_size 0) small) in
    let still : d1.pages (got_page + page_size) ≡ some g =
      own.others (got_page + page_size) next_ne
      ∙ update_other d.pages got_page _ (got_page + page_size) next_ne
      ∙ used in
    let (d2, second, other) = Ends-value (
      greet-Greets (got_page + page_size) page_2 behind2 f.name g d1 still (omega arith) refl
        page_2_nonzero full small) in
    rw (char_open, ==_of_ne got 0 n, ==_of_ne got_page 0 n2, first, ◌>>=◌, second, ◌>>=◌)
      (ends (record {
        result = refl;
        private = refl;
        own = own.bytes;
        own_page = other.others got_page (λ e. next_ne (sym e)) ∙ own.here;
        own_bytes = own.written;
        own_text = own.reads;
        next = other.bytes;
        next_page = other.here;
        next_bytes = other.written;
        next_text = other.reads;
        others = λ q a b. other.others q b ∙ own.others q a ∙ update_other d.pages got_page _ q a;
        infos = ap (λ m. m got) (other.infos ∙ own.infos) ∙ update_self d.infos got _;
        latest = other.global_var ∙ own.global_var;
      }))
