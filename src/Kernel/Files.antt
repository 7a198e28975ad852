-- ===== src/Kernel/Files.antt =====
-- linux/dcache.h and linux/string.h as ex9/exer9_ver3.c uses them: the path of an open file as text,
-- and its last part.
use lkms.Prelude.{ℕ, Option, List}

pub record Vfs : Type 1 where
  pub FilePath : Type 0
  -- The text, if it fits into a buffer of `buflen` bytes; otherwise an error pointer.
  pub d_path : FilePath → (buflen : ℕ) → Option (List ℕ)
  pub kbasename : List ℕ → List ℕ
