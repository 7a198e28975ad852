-- ===== src/PageDemo.antt =====
-- ex8: two modules that show where a page from kmalloc and a page from vmalloc lie. ex8/ex8_13.c
-- (First) allocates the pages and exports their addresses; ex8/ex8_13_module2.c (Second) reads
-- those addresses. Both look the entries up in the page tables of the process that loads them.
mod First
mod Second
mod Agree
mod Examples
use lkms.Prelude.{ℕ}

-- What one of the demos prints: the virtual address, the entry that the page walk left, and what
-- virt_to_phys and __pa give.
pub record Shown : Type 0 where
  pub virtual_addr : ℕ
  pub walked : ℕ
  pub phy : ℕ
  pub phy2 : ℕ
