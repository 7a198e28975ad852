-- ===== src/Wss/Same.antt =====
-- workingwss.c and wss4.c: the two print the same.
use lkms.Prelude.{
  ℕ, zero, suc, ◌+◌, ◌*◌, ◌≤◌, ◌<◌, ◌≡◌, ◌≢◌, refl, ◌∙◌, ap, arith, ltb, ◌==◌, ==-self, true, false,
  some, List, [], ◌++◌, All, length, length-append,
}
use lkms.Kernel.Run.{Run, ok, ◌>>=◌, Ends, ends, Ends-value}
use lkms.Kernel.Paging.{Paging}
use lkms.Kernel.Areas.{total_pages, length-area_addrs}
use lkms.Wss.{State, Task, Event, rounds_from, start}
use lkms.Wss.Memory.{Heap, Allocator}
use lkms.Wss.Append.{Chain, nil}
use lkms.Wss.Mark.{wss_marking-Marked}
use lkms.Wss.Erase.{erase, task_of, events_of, wss_marking-Erases}
use lkms.Wss.Kept.{sleep-BothKept}
use lkms.WssZero as Plain
use lkms.WssZero.Prints.{IsUser, HasMm}
use lkms.WssKeep as Keep

-- A list that has room for the pages of all rounds to come has room for those of this one, and what
-- this one adds leaves room for the next.
room_now : (a b n l fuel : ℕ) → b ≤ n → a + suc l * n ≤ fuel → a + b ≤ fuel
room_now a b n l fuel e f = omega arith

room_later :
    {A : Type 0} (vs ws : List A) (b n l fuel : ℕ)
    → length ws ≤ b
    → b ≤ n
    → length vs + suc l * n ≤ fuel
    → length (vs ++ ws) + l * n ≤ fuel
room_later vs ws b n l fuel e f g = omega (arith, length-append vs ws)

-- A sequence goes on where its first part has come to a value.
ok_then :
    {A B : Type 0} {m : Run A} (f : A → Run B) {a : A} {r : Run B}
    → m ≡ ok a
    → f a ≡ r
    → m >>= f ≡ r
ok_then f e g = ap (λ n. n >>= f) e ∙ g

-- The same world, as workingwss.c sees it.
abbrev pub seen :
    (k : Paging) → (ℕ → Plain.Task k × List (Plain.Event k)) → ℕ → Task k × List (Event k)
seen k world i = (task_of k (world i).0, events_of k (world i).1)

module _ (k : Paging) (al : Allocator k) (never_full : (h : Heap k) → al.malloc h ≢ 0)
    (fuel pid n : ℕ) (world : ℕ → Plain.Task k × List (Plain.Event k))
    (user : (i : ℕ) → IsUser k fuel (world i).0) (users : (i : ℕ) → All (HasMm k) (world i).1)
    (few : (i : ℕ) → total_pages (world i).0.mmap ≤ n) where
  open k use {Pte}

  rounds_from-same :
      (l rounds i : ℕ) (vs : List Pte) (s : State k)
      → i + l ≡ 10
      → l < rounds
      → Chain k s.heap s.head vs
      → length vs + l * n ≤ fuel
      → Ends
          (λ (out, t).
            Keep.rounds_from k 10 rounds fuel pid i world (erase k s) ≡ ok (out, erase k t))
          (rounds_from k al rounds fuel pid i (seen k world) s)
  unfolding rounds_from Keep.rounds_from
  rounds_from-same l zero i vs s e f chain enough = absurd (omega arith)
  rounds_from-same zero (suc rounds) i vs s e f chain enough =
      let over : ltb i 10 ≡ false = ground arith in
      rw (rounds_from, Keep.rounds_from, over) (ends refl)
  rounds_from-same (suc l) (suc rounds) i vs s e f chain enough =
      let inside : ltb i 10 ≡ true = ground arith in
      let ts = (world i).0 in
      let room : length vs + total_pages ts.mmap ≤ fuel =
        room_now (length vs) (total_pages ts.mmap) n l fuel (few i) enough in
      let ((r, t), marked, (outcome, mk)) = Ends-value (
        wss_marking-Marked k al never_full fuel (task_of k ts) (user i).mm vs s (user i).has_mm
          (user i).fit chain room) in
      let (u, slept, (same, heap, head)) =
        Ends-value (sleep-BothKept k pid (world i).1 t (users i)) in
      let kept : Chain k u.heap u.head (vs ++ mk.recorded) = rw (heap, head) mk.chain in
      let fits : length (vs ++ mk.recorded) + l * n ≤ fuel =
        room_later vs mk.recorded (total_pages ts.mmap) n l fuel (rw length-area_addrs at mk.few)
          (few i) enough in
      let ((out, v), rest, lines) = Ends-value (
        rounds_from-same l rounds (i + 1) (vs ++ mk.recorded) u (omega arith) (omega arith) kept
          fits) in
      let plain = wss_marking-Erases k al fuel ts s r t marked in
      rw (rounds_from, Keep.rounds_from, inside, marked, ◌>>=◌, slept, ◌>>=◌, rest)
        (ends (ok_then _ plain (ok_then _ same (ok_then _ lines refl))))

  -- Where `malloc` returns a node every time, the task found is the one asked for and is in no round
  -- a kernel thread, nor is any task whose page fault is reported, its areas fit and have at most `n`
  -- pages, the list is empty at first and the fuel is at least 10 * n, workingwss.c comes to its end
  -- and prints what wss4.c prints, which keeps no list; and the entries, the count and the hook end
  -- the same. In the sleeps any page faults are reported, and the kernel changes any entries.
  pub start-same :
      (ts : Plain.Task k) (s : State k)
      → ts.pid ≡ pid
      → s.head ≡ 0
      → 10 * n ≤ fuel
      → Ends
          (λ (out, t). Keep.start4 k fuel pid (some ts) world (erase k s) ≡ ok (out, erase k t))
          (start k al fuel pid (some (task_of k ts)) (seen k world) s)
  unfolding start Keep.start_with
  start-same ts s ours empty enough =
      let asked : (ts.pid == pid) ≡ true = rw ours (==-self pid) in
      rw (asked) (
        rounds_from-same 10 11 0 [] (record s { hooked = true }) (omega arith) (omega arith)
          (nil empty) (omega (arith, enough)))
