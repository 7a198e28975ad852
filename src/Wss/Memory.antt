-- ===== src/Wss/Memory.antt =====
-- workingwss.c, the heap of `struct node`.
use lkms.Prelude.{ℕ, ◌≡◌, ◌≢◌, ◌==◌, if◌then◌else◌, Option, none, some, List, [], ◌∷◌}
use lkms.Kernel.Run.{Run, ok, fault, ◌>>=◌}
use lkms.Kernel.Paging.{Paging}

module _ (k : Paging) where
  open k use {Pte}

  -- struct node; 0 is NULL
  pub record Node : Type 0 where
    pub addr : Pte
    pub next : ℕ

  -- The allocated nodes, the latest write of an address first.
  abbrev pub Heap : Type 0
  Heap = List (ℕ × Node)

  unfoldable pub cell : Heap → ℕ → Option Node
  cell [] p = none
  cell ((q, n) ∷ h) p = if q == p then some n else cell h p

  -- `*p`, a fault at NULL and at an address that holds no node
  unfoldable pub load : Heap → ℕ → Run Node
  load h p = if p == 0 then fault else elim (cell h p) [ none ↦ fault | some n ↦ ok n ]

  -- A write through `p`, a fault where a read is one.
  unfoldable pub store : Heap → ℕ → Node → Run Heap
  store h p n = do old ← load h p; ok ((p, n) ∷ h)

  -- The allocator: what `malloc` returns is NULL, or not in use.
  pub record Allocator : Type 0 where
    pub malloc : Heap → ℕ
    pub fresh : (h : Heap) → malloc h ≢ 0 → cell h (malloc h) ≡ none
