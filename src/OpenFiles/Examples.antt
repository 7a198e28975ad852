-- ===== src/OpenFiles/Examples.antt =====
-- ex9/exer9_ver3.c at concrete data: an instance of each theorem.
use lkms.Prelude.{
  ℕ, ◌+◌, ◌==◌, ◌≡◌, refl, ap, arith, ltb, if◌then◌else◌, Option, none, some, List, [], ◌∷◌, ◌++◌,
  ℤ, pos, neg, ◌==ℤ◌, length,
}
use lkms.Kernel.Run.{ok}
use lkms.Kernel.Files.{Vfs}
use lkms.OpenFiles.{State, File, Task}
use lkms.OpenFiles.Search.{Other, ask, ask-shows_first}

-- What follows the last slash.
abbrev last_part : (part rest : List ℕ) → List ℕ
last_part part [] = part
last_part part (c ∷ cs) =
    let here = last_part cs cs in let on = last_part part cs in if c == b'/' then here else on

abbrev disk : Vfs
disk = record {
  FilePath = List ℕ;
  d_path = λ p n. if ltb (length p) n then some p else none;
  kbasename = λ p. last_part p p;
}

abbrev file_at : List ℕ → File disk
file_at path = record {
  f_path = path;
  d_inode = record {
    i_atime = pos 1;
    i_mtime = pos 2;
    i_blocks = 8;
    i_size = pos 4000;
    i_bytes = 4000;
    i_ino = 17;
  };
  f_count = pos 1;
  f_pos = pos 0;
  f_open = 64;
  f_release = 96;
}

-- The format string is cut down to the descriptor and the path.
abbrev brief : ℕ → List ℕ → File disk → List ℕ
brief i cwd f = (b'0' + i) ∷ b':' ∷ cwd

abbrev tty : List ℕ
tty = b'/' ∷ b't' ∷ []

abbrev log : List ℕ
log = b'/' ∷ b'v' ∷ b'/' ∷ b'l' ∷ []

abbrev table : List (Option (File disk))
table = some (file_at tty) ∷ some (file_at log) ∷ none ∷ []

abbrev full : List (Option (File disk))
full = some (file_at tty) ∷ []

abbrev runs : List (Option (File disk)) → ℤ → Option (Task disk)
runs fd p = if p ==ℤ pos 7 then some (record { files = some fd }) else none

abbrev loaded : State
loaded = record {
  filename = [];
  pid = neg 1;
  output = [];
  buffers = 0;
  finput = some 1;
  foutput = some 1;
}

abbrev first_byte : List ℕ → ℕ
first_byte [] = 0
first_byte (c ∷ cs) = c

tty-Other : Other disk brief (b'l' ∷ []) (file_at tty)
tty-Other = (tty, refl, λ e. let h : 116 ≡ 108 = ap first_byte e in omega arith)

ask-shows_first_example :
    ask disk brief 3264 4096 (runs table) (b'l' ∷ []) (pos 7) loaded
    ≡ ok ((b'1' ∷ b':' ∷ log) ++ b'\n' ∷ [], 1)
ask-shows_first_example =
    ask-shows_first disk brief 3264 4096 (runs table) (b'l' ∷ []) (pos 7) loaded table (omega arith)
      refl refl (omega arith) (omega arith) (file_at tty ∷ []) (file_at log) (none ∷ []) log refl
      (tty-Other, tt) refl refl (omega arith)
