-- ===== src/SharedPage.antt =====
-- ex7_ver2.c and ex77.c: two versions of a device with one page for all processes, a lock that they
-- set by ioctl, and the attributes `flag` and `size` in sysfs. What both files write alike stands
-- here: `ioctl`, `mmap_open`, `mmap_close`, `char_open`, `char_close`, `flag_show`, `flag_store`,
-- `init` and `cleanup` model the functions of that name (of ex7_ver2.c, whose ioctl is ex77.c's
-- _ioctl). Paged is the rest of ex7_ver2.c, Counted that of ex77.c.
mod Paged
mod Counted
mod Sizes
mod Flags
mod Closing
mod Examples
use lkms.Prelude.{
  ℕ, ◌-◌, leb, ◌==◌, if◌then◌else◌, Bool, true, false, Option, none, some, List, [], ◌∷◌, ℤ, pos,
  neg, negsuc, ◌==ℤ◌, add32, sub32,
}
use lkms.Kernel.Run.{Run, ok, fault, blocked, ◌>>=◌}

-- A page in use: the text at its start, and how many hold it.
pub record Page : Type 0 where
  pub text : List ℕ
  pub refs : ℕ

-- The modules' variables. `infos` tells what the `data` of an object in use points to, `pages` which
-- pages are in use; `locked` is the mutex `lock`; `count` is a 32-bit pattern.
pub record State : Type 0 where
  pub flag : ℤ
  pub size : ℤ
  pub count : ℕ
  pub mp_info : ℕ
  pub major_no : ℤ
  pub locked : Bool
  pub infos : ℕ → Option ℕ
  pub pages : ℕ → Option Page

abbrev pub update {ℓ} : {A : Type ℓ} → (ℕ → A) → ℕ → A → ℕ → A
update m p v q = if p == q then v else m q

-- `info->data`; an object that is not in use is a fault, and none is at NULL.
pub data_of : ℕ → State → Run ℕ
data_of p s = elim (s.infos p) [ none ↦ fault | some a ↦ if p == 0 then fault else ok a ]

-- free_page gives one hold on a page up; of a page that is not in use it is a fault, and of NULL it
-- does nothing.
pub free_page : ℕ → State → Run State
free_page a s =
    let freed : Run State = elim (s.pages a) [
      | none ↦ fault
      | some g ↦ ok (record s {
        pages =
            update s.pages a (if leb g.refs 1 then none else some (record g { refs = g.refs - 1 }));
      })
    ] in
    if a == 0 then ok s else freed

pub data Command : Type 0 where
  lock unlock status : Command
  other : ℕ → Command

-- `signal`: whether a signal comes before the lock is free; `user_ok`: whether the user's `struct
-- lock` can be written. A lock that is held is waited for.
unfoldable pub ioctl : (signal user_ok : Bool) → Command → State → Run (ℤ × State)
ioctl signal user_ok lock s =
    if s.locked
    then (if signal then ok (neg 512, s) else blocked)
    else ok (pos 0, record s { locked = true })
ioctl signal user_ok unlock s = ok (pos 0, record s { locked = false })
ioctl signal user_ok status s = if user_ok then ok (pos 0, s) else ok (neg 13, s)
ioctl signal user_ok (other cmd) s = ok (neg 22, s)

unfoldable pub mmap_open : State → State
mmap_open s = record s { count = add32 s.count 1 }

unfoldable pub mmap_close : State → State
mmap_close s = record s { locked = false; count = sub32 s.count 1 }

-- The result and the file's `private_data`.
unfoldable pub char_open : State → ℤ × ℕ
char_open s = (pos 0, s.mp_info)

unfoldable pub char_close : (private_data : ℕ) → State → Run (ℤ × ℕ × State)
char_close private_data s = data_of private_data s >>= λ a. free_page a s >>= λ t. ok (pos 0, 0, t)

pub data Attribute : Type 0 where
  flag size : Attribute

unfoldable pub flag_show : Attribute → State → ℤ
flag_show flag s = s.flag
flag_show size s = s.size

-- `var` is what sscanf leaves in the variable of that name.
unfoldable pub flag_store : (var : ℤ) → State → State
flag_store var s =
    if var ==ℤ pos 0
    then (if s.count == 0 then record s { flag = var } else s)
    else record s { flag = var }

-- `group` and `major` are what sysfs_create_group and register_chrdev return.
unfoldable pub init : (group major : ℤ) → State → ℤ × State
init group major s = (group, record s { major_no = major })

-- The number that is given to unregister_chrdev.
unfoldable pub cleanup : State → ℤ
cleanup s = s.flag
