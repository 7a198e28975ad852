-- ===== src/Wss/Cleanup.antt =====
-- workingwss.c, unloading: what `cleanup` does to the list and to the entries.
use lkms.Prelude.{
  ℕ, zero, suc, ◌<◌, ◌≡◌, ◌≢◌, refl, ◌∙◌, ==_of_ne, true, false, Option, none, some, List, [], ◌∷◌,
  arith, length,
}
use lkms.Kernel.Run.{Run, ok, fault, ◌>>=◌}
use lkms.Kernel.Paging.{Paging}
use lkms.Wss.{State, Task, Event, restore, cleanup, start}
use lkms.Wss.Append.{Chain, nil, cons, load-ok, null_of_nil, ne_null_of_cons}
use lkms.Wss.Memory.{Node, Heap, load, Allocator}

module _ (k : Paging) where
  open k use {Pte}

  load-null : (h : Heap k) (p : ℕ) → p ≡ 0 → load k h p ≡ fault
  unfolding load
  load-null h p z = rw z

  restore-last :
      (fuel : ℕ) (h : Heap k) (p : ℕ) (n : Node k)
      → load k h p ≡ ok n
      → n.next ≡ 0
      → restore k (suc fuel) h p ≡ ok tt
  unfolding restore
  restore-last fuel h p n e z = rw (e, ◌>>=◌, z)

  restore-next :
      (fuel : ℕ) (h : Heap k) (p : ℕ) (n : Node k)
      → load k h p ≡ ok n
      → n.next ≢ 0
      → restore k (suc fuel) h p ≡ restore k fuel h n.next
  unfolding restore
  restore-next fuel h p n e ne = rw (e, ◌>>=◌, ==_of_ne n.next 0 ne)

  restore-Chain :
      (fuel : ℕ) (h : Heap k) (p : ℕ) (v : Pte) (vs : List Pte)
      → Chain k h p (v ∷ vs)
      → length vs < fuel
      → restore k fuel h p ≡ ok tt
  restore-Chain zero h p v vs c f = absurd (omega arith)
  restore-Chain (suc fuel) h p v [] (cons {q} ne e (nil z)) f =
      restore-last fuel h p _ (load-ok k h p _ ne e) z
  restore-Chain (suc fuel) h p v (w ∷ vs) (cons {q} ne e c) f =
      restore-next fuel h p _ (load-ok k h p _ ne e) (ne_null_of_cons k h q w vs c)
      ∙ restore-Chain fuel h q w vs c (omega arith)

  cleanup-null : (fuel : ℕ) (s : State k) → s.head ≡ 0 → 0 < fuel → cleanup k fuel s ≡ fault
  unfolding cleanup restore
  cleanup-null zero s z f = absurd (omega arith)
  cleanup-null (suc fuel) s z f = rw (cleanup, restore, load-null s.heap s.head z)

  -- What a run of `cleanup` comes to, over the entries of the list.
  abbrev pub unloaded : List Pte → State k → Run (State k)
  unloaded [] s = fault
  unloaded (v ∷ vs) s = ok (record s { hooked = false })

  -- With fuel for the list, `cleanup` faults if the list is empty, and else ends with the hook
  -- cleared and everything else, the entries of all pages included, as it was.
  pub cleanup-unloaded :
      (fuel : ℕ) (vs : List Pte) (s : State k)
      → Chain k s.heap s.head vs
      → length vs < fuel
      → cleanup k fuel s ≡ unloaded vs s
  unfolding cleanup
  cleanup-unloaded fuel [] s c f = cleanup-null fuel s (null_of_nil k s.heap s.head c) (omega arith)
  cleanup-unloaded fuel (v ∷ vs) s c f =
      rw (restore-Chain fuel s.heap s.head v vs c (omega arith)) refl

  -- If the module is loaded for a process that is not found, or whose pid differs, then unloading
  -- it, with the list still empty, is a fault.
  pub start-cleanup_faults :
      (a : Allocator k) (fuel pid : ℕ) (found : Option (Task k))
      (world : ℕ → Task k × List (Event k)) (s : State k)
      → ((ts : Task k) → found ≡ some ts → ts.pid ≢ pid)
      → s.head ≡ 0
      → 0 < fuel
      → (start k a fuel pid found world s >>= λ (out, t). cleanup k fuel t) ≡ fault
  unfolding start
  start-cleanup_faults a fuel pid none world s other z f =
      cleanup-null fuel (record s { hooked = true }) z f
  start-cleanup_faults a fuel pid (some ts) world s other z f =
      rw (==_of_ne ts.pid pid (other ts refl)) (cleanup-null fuel (record s { hooked = true }) z f)
