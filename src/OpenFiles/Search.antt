-- ===== src/OpenFiles/Search.antt =====
-- ex9/exer9_ver3.c: what a reader of `output` sees after writes to `filename` and `pid`.
use lkms.Prelude.{
  ℕ, suc, ◌+◌, ◌<◌, ◌≤◌, ◌≡◌, ◌≢◌, refl, arith, ◌==◌, ==-self, eq_of_==, ltb, true, false,
  Bool-cases, inl, inr, Option, none, some, List, [], ◌∷◌, ◌++◌, map, All, ℤ, neg, ◌==ℤ◌, length,
}
use lkms.Kernel.Run.{Run, ok, fault, ◌>>=◌}
use lkms.Kernel.Files.{Vfs}
use lkms.OpenFiles.{
  State, same_text, fitting, filename_store, foutput_show, File, Task, find_file, fs_details,
  pid_store,
}

pub same_text_self : (a : List ℕ) → same_text a a ≡ true
unfolding same_text
same_text_self [] = refl
same_text_self (x ∷ xs) = rw (==-self x) (same_text_self xs)

pub eq_of_same_text : (a b : List ℕ) → same_text a b ≡ true → a ≡ b
unfolding same_text
eq_of_same_text [] [] e = refl
eq_of_same_text [] (y ∷ ys) e = cc
eq_of_same_text (x ∷ xs) [] e = cc
eq_of_same_text (x ∷ xs) (y ∷ ys) e = elim (Bool-cases (x == y)) [
  | inl same ↦
      let here : x ≡ y = eq_of_== x y same in
      let rest : xs ≡ ys = eq_of_same_text xs ys (rw same at e) in cc
  | inr other ↦ cc
]

pub fitting_run : (n : ℕ) (t : List ℕ) → length t < n → fitting n t ≡ ok t
unfolding fitting
fitting_run n t h = let fits : ltb (length t) n ≡ true = ground arith in rw fits refl

module _ (v : Vfs) (text : ℕ → List ℕ → File v → List ℕ) where
  open v use {d_path, kbasename}

  -- The path fits into the buffer, and its last part is another name.
  abbrev pub Other : List ℕ → File v → Type 0
  Other name f = (cwd : List ℕ) × (d_path f.f_path 100 ≡ some cwd) × (kbasename cwd ≢ name)

  -- Files with other names are passed over.
  pub find_file-skip :
      (name : List ℕ) (before : List (File v)) (rest : List (Option (File v))) (i j : ℕ)
      → j ≡ i + length before
      → All (Other name) before
      → find_file v text i (map some before ++ rest) name ≡ find_file v text j rest name
  unfolding find_file
  find_file-skip name [] rest i j offset others = let same : j ≡ i = omega arith in rw same refl
  find_file-skip name (f ∷ fs) rest i j offset ((cwd, fits, other), others) =
      elim (Bool-cases (same_text (kbasename cwd) name)) [
        | inl same ↦ absurd (other (eq_of_same_text (kbasename cwd) name same))
        | inr differs ↦
            rw (find_file, fits, differs)
              (find_file-skip name fs rest (suc i) j (omega arith) others)
      ]

  -- A user writes a name and a pid, and reads `output`: the text, and the buffers in use.
  abbrev pub ask :
      (gfp_kernel got : ℕ)
      → (task : ℤ → Option (Task v)) → (name : List ℕ) → (number : ℤ) → State
      → Run (List ℕ × ℕ)
  ask gfp_kernel got task name number s = filename_store (some name) (length name) s >>= λ (c, s1).
      pid_store v text (some number) gfp_kernel got task 1 s1 >>= λ (c1, s2).
      ok (foutput_show s2, s2.buffers)

  module _ (gfp_kernel got : ℕ) (task : ℤ → Option (Task v)) (name : List ℕ) (number : ℤ)
      (s : State) (fd : List (Option (File v))) (short : length name < 50)
      (found : task number ≡ some (record { files = some fd }))
      (not_default : (number ==ℤ neg 1) ≡ false) (memory : got ≢ 0) (room : 100 ≤ gfp_kernel) where
    -- What the user reads is what the loop leaves, and one more buffer is in use.
    ask-find_file :
        (out : List ℕ)
        → find_file v text 0 fd name ≡ ok out
        → ask gfp_kernel got task name number s ≡ ok (out ++ b'\n' ∷ [], s.buffers + 1)
    unfolding pid_store fs_details filename_store foutput_show
    ask-find_file out e =
        let is_got : (got == 0) ≡ false = ground arith in
        let is_room : ltb gfp_kernel 100 ≡ false = ground arith in
        rw (fitting_run 50 name short, not_default, found, is_got, is_room, e) refl

    -- The file of that name that stands first in the table is shown, under its descriptor, and one
    -- more buffer stays in use: the files before it have other names, its path fits into the
    -- buffer, and its text into `output`. The name fits into `filename`, the process is found and
    -- its pid is not -1, kmalloc gives memory, and GFP_KERNEL is 100 or more.
    pub ask-shows_first :
        (before : List (File v)) (f : File v) (after : List (Option (File v))) (cwd : List ℕ)
        → fd ≡ map some before ++ some f ∷ after
        → All (Other name) before
        → d_path f.f_path 100 ≡ some cwd
        → kbasename cwd ≡ name
        → length (text (length before) cwd f) < 500
        → ask gfp_kernel got task name number s
          ≡ ok (text (length before) cwd f ++ b'\n' ∷ [], s.buffers + 1)
    unfolding find_file
    ask-shows_first before f after cwd table others fits named small =
        let same : same_text (kbasename cwd) name ≡ true = rw named (same_text_self name) in
        ask-find_file (text (length before) cwd f) (
          rw
            (
              table,
              find_file-skip name before (some f ∷ after) 0 (length before) (omega arith) others,
              find_file,
              fits,
              same,
            )
            (fitting_run 500 (text (length before) cwd f) small))

    -- If all files up to the first unused descriptor have other names, an empty line is shown, the
    -- rest of the table is not looked at, and one more buffer stays in use; the paths fit into the
    -- buffer. The name, the process, the memory and GFP_KERNEL are as above: the name fits, the
    -- process is found and its pid is not -1, kmalloc gives memory, GFP_KERNEL is 100 or more.
    pub ask-shows_none :
        (before : List (File v)) (after : List (Option (File v)))
        → fd ≡ map some before ++ none ∷ after
        → All (Other name) before
        → ask gfp_kernel got task name number s ≡ ok (b'\n' ∷ [], s.buffers + 1)
    unfolding find_file
    ask-shows_none before after table others = ask-find_file [] (
        rw (table, find_file-skip name before (none ∷ after) 0 (length before) (omega arith) others)
          refl)

    -- A table without a free entry that does not hold the name is read past its end.
    pub full_table_faults :
        (before : List (File v))
        → fd ≡ map some before ++ []
        → All (Other name) before
        → ask gfp_kernel got task name number s ≡ fault
    unfolding find_file pid_store fs_details filename_store foutput_show
    full_table_faults before table others =
        let is_got : (got == 0) ≡ false = ground arith in
        let is_room : ltb gfp_kernel 100 ≡ false = ground arith in
        rw
          (
            fitting_run 50 name short,
            not_default,
            found,
            is_got,
            is_room,
            table,
            find_file-skip name before [] 0 (length before) (omega arith) others,
          )
          refl
