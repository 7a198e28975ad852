-- ===== src/OpenFiles.antt =====
-- ex9/exer9_ver3.c: three attributes in sysfs. Writing a process's pid looks for the open file whose
-- name was written before, and `output` then shows what is known of it.
-- `fs_details`, `filename_show`, `filename_store`, `pid_show`, `pid_store`, `foutput_show`,
-- `foutput_store`, `init` and `cleanup` model the functions of that name.
mod Search
mod Load
mod Examples
use lkms.Prelude.{
  ℕ, zero, suc, ◌+◌, ◌==◌, ltb, if◌then◌else◌, ◌&&◌, Bool, true, false, Option, none, some, List,
  [], ◌∷◌, ◌++◌, ℤ, pos, neg, ◌==ℤ◌, length,
}
use lkms.Kernel.Run.{Run, ok, fault, ◌>>=◌}
use lkms.Kernel.Files.{Vfs}

-- The module's variables, the arrays as the text before their first NUL; how many buffers kmalloc
-- gave that are not given back; and how many hold each object in sysfs (none: NULL).
pub record State : Type 0 where
  pub filename : List ℕ
  pub pid : ℤ
  pub output : List ℕ
  pub buffers : ℕ
  pub finput : Option ℕ
  pub foutput : Option ℕ

-- strcmp(a, b) == 0
pub same_text : List ℕ → List ℕ → Bool
same_text [] [] = true
same_text [] (b ∷ bs) = false
same_text (a ∷ as') [] = false
same_text (a ∷ as') (b ∷ bs) = (a == b) && same_text as' bs

-- sprintf into an array of `size` bytes, the NUL at the end included.
pub fitting : (size : ℕ) → List ℕ → Run (List ℕ)
fitting size text = if ltb (length text) size then ok text else fault

pub filename_show : State → List ℕ
filename_show s = s.filename ++ b'\n' ∷ []

-- `word` is the first word of what is written, which sscanf takes; none leaves the array alone.
pub filename_store : (word : Option (List ℕ)) → (count : ℕ) → State → Run (ℕ × State)
filename_store none count s = ok (count, s)
filename_store (some word) count s =
    fitting 50 word >>= λ text. ok (count, record s { filename = text })

-- The number that is printed.
pub pid_show : State → ℤ
pid_show s = s.pid

pub foutput_show : State → List ℕ
foutput_show s = s.output ++ b'\n' ∷ []

pub foutput_store : (count : ℕ) → State → ℕ × State
foutput_store count s = (count, s)

-- kobject_put gives one hold on an object up; one that nobody holds is gone.
pub kobject_put : Option ℕ → Run (Option ℕ)
kobject_put none = ok none
kobject_put (some zero) = fault
kobject_put (some (suc n)) = ok (some n)

-- `retval = sysfs_create_group(…); if (retval) kobject_put(…);` on a new object
pub with_group : (retval : ℤ) → Run (Option ℕ)
with_group retval = if retval ==ℤ pos 0 then ok (some 1) else kobject_put (some 1)

-- Whether kobject_create_and_add succeeds, and what sysfs_create_group returns, twice.
pub init : (made : Bool) → (group : ℤ) → (made2 : Bool) → (group2 : ℤ) → State → Run (ℤ × State)
init false group made2 group2 s = ok (neg 12, record s { finput = none })
init true group false group2 s =
    with_group group >>= λ k. ok (neg 12, record s { finput = k; foutput = none })
init true group true group2 s = with_group group >>= λ k.
    with_group group2 >>= λ k2. ok (pos 0, record s { finput = k; foutput = k2 })

pub cleanup : State → Run State
cleanup s = kobject_put s.finput >>= λ k.
    kobject_put s.foutput >>= λ k2. ok (record s { finput = k; foutput = k2 })

module _ (v : Vfs) where
  open v use {FilePath, d_path, kbasename}

  -- `struct inode`, `struct file` and `struct task_struct`: the fields that are read. The table of
  -- the open files is an array of pointers.
  pub record Inode : Type 0 where
    pub i_atime : ℤ
    pub i_mtime : ℤ
    pub i_blocks : ℕ
    pub i_size : ℤ
    pub i_bytes : ℕ
    pub i_ino : ℕ

  pub record File : Type 0 where
    pub f_path : FilePath
    pub d_inode : Inode
    pub f_count : ℤ
    pub f_pos : ℤ
    pub f_open : ℕ
    pub f_release : ℕ

  pub record Task : Type 0 where
    pub files : Option (List (Option File))

  -- `text` is what sprintf makes of the descriptor, the path and the file's fields.
  module _ (text : ℕ → List ℕ → File → List ℕ) where
    -- The loop: what it leaves in `output`. No entry of NULL means a read past the table.
    unfoldable pub find_file : ℕ → List (Option File) → (filename : List ℕ) → Run (List ℕ)
    find_file i [] filename = fault
    find_file i (none ∷ fd) filename = ok []
    find_file i (some f ∷ fd) filename = elim (d_path f.f_path 100) [
      | none ↦ fault
      | some cwd ↦
          let rest = find_file (suc i) fd filename in
          if same_text (kbasename cwd) filename then fitting 500 (text i cwd f) else rest
    ]

    -- `got` is what kmalloc returns. The arguments of that call are swapped, so that the size is the
    -- number `gfp_kernel`. `ts` is what pid_task finds.
    unfoldable pub fs_details :
        (gfp_kernel got : ℕ) → (ts : Option Task) → (filename : List ℕ) → State → Run (ℤ × State)
    fs_details gfp_kernel got none filename s = fault
    fs_details gfp_kernel got (some ts) filename s =
        let cleared = record s { output = []; buffers = s.buffers + 1 } in
        let searched : Run (ℤ × State) = elim ts.files [
          | none ↦ fault
          | some fd ↦
              find_file 0 fd filename >>= λ found. ok (pos 0, record cleared { output = found })
        ] in
        if got == 0 then fault else if ltb gfp_kernel 100 then fault else searched

    -- `number` is what sscanf reads; none leaves `pid` alone. `task` tells which task has a pid.
    unfoldable pub pid_store :
        (number : Option ℤ)
        → (gfp_kernel got : ℕ) → (task : ℤ → Option Task) → (count : ℕ) → State
        → Run (ℕ × State)
    pid_store none gfp_kernel got task count s =
        let searched =
          fs_details gfp_kernel got (task s.pid) s.filename s >>= λ (r, t). ok (count, t) in
        if s.pid ==ℤ neg 1 then ok (count, s) else searched
    pid_store (some number) gfp_kernel got task count s =
        let s1 = record s { pid = number } in
        let searched =
          fs_details gfp_kernel got (task number) s.filename s1 >>= λ (r, t). ok (count, t) in
        if number ==ℤ neg 1 then ok (count, s1) else searched
