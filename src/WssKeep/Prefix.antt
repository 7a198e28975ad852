-- ===== src/WssKeep/Prefix.antt =====
-- wss4.c, wss5.c and wss3.c: that they come to their ends, and print the same as long as each prints.
use lkms.Prelude.{
  ℕ, zero, suc, ◌+◌, ◌-◌, ◌<◌, ◌≤◌, ◌≡◌, refl, sym, ◌∙◌, ap, arith, ltb, ◌==◌, Bool-cases, inl, inr,
  ==-self, true, false, some, List, [], ◌∷◌, All, take, length,
}
use lkms.Kernel.Run.{Run, ok, fault, blocked, out_of_fuel, ◌>>=◌, Ends, ends, Ends-value}
use lkms.Kernel.Paging.{Paging}
use lkms.WssZero.{State, Task, Event}
use lkms.WssZero.Prints.{IsUser, HasMm, wss_marking-wss, sleep-Ends}
use lkms.WssKeep.{rounds_from, start_with, start3, start4, start5}

-- The lines of a run.
abbrev lines : {A : Type 0} → Run (List ℕ × A) → List ℕ
lines (ok (out, t)) = out
lines fault = []
lines blocked = []
lines out_of_fuel = []

module _ (k : Paging) (fuel pid : ℕ) (world : ℕ → Task k × List (Event k))
    (user : (i : ℕ) → IsUser k fuel (world i).0) (users : (i : ℕ) → All (HasMm k) (world i).1) where
  -- A run with more rounds, and one with fewer whose lines are the first of its lines.
  abbrev Both : (n less more rounds rounds' i : ℕ) → State k → Type 0
  Both n less more rounds rounds' i s =
      (out : List ℕ) × (t : State k) × (u : State k) × (rounds_from k more rounds fuel pid i world s
        ≡ ok (out, t))
      × (length out ≡ n)
      × (rounds_from k less rounds' fuel pid i world s ≡ ok (take (less - i) out, u))

  rounds_from-Both :
      (n less more rounds rounds' i : ℕ) (s : State k)
      → i + n ≡ more
      → less ≤ more
      → n < rounds
      → 0 < rounds'
      → less < i + rounds'
      → Both n less more rounds rounds' i s
  unfolding rounds_from
  rounds_from-Both n less more zero rounds' i s e le f pos g = absurd (omega arith)
  rounds_from-Both n less more (suc rounds) zero i s e le f pos g = absurd (omega arith)
  rounds_from-Both zero less more (suc rounds) (suc rounds') i s e le f pos g =
      let over : ltb i more ≡ false = ground arith in
      let over' : ltb i less ≡ false = ground arith in
      let none_left : less - i ≡ 0 = omega arith in
      ([], s, s, rw (rounds_from, over) refl, refl, rw (rounds_from, over', none_left) refl)
  rounds_from-Both (suc n) less more (suc rounds) (suc rounds') i s e le f pos g =
      let inside : ltb i more ≡ true = ground arith in
      let ((r, t), marked, same) =
        Ends-value (wss_marking-wss k fuel s.wss (world i).0 s (user i) refl) in
      let (u, slept, tt') = Ends-value (sleep-Ends k pid (world i).1 t (users i)) in
      elim (Bool-cases (ltb i less)) [
        | inl early ↦
            let (out, v, w, long, count, short) =
              rounds_from-Both n less more rounds rounds' (i + 1) u (omega arith) le (omega arith)
                (ground arith) (omega arith) in
            let one_more : less - i ≡ suc (less - (i + 1)) = ground arith in
            (
              t.wss ∷ out,
              v,
              w,
              rw (rounds_from, inside, marked, ◌>>=◌, slept, ◌>>=◌, long) refl,
              ap suc count,
              rw (rounds_from, early, marked, ◌>>=◌, slept, ◌>>=◌, short, one_more) refl,
            )
        | inr late ↦
            let (out, v, w, long, count, short) =
              rounds_from-Both n less more rounds 1 (i + 1) u (omega arith) le (omega arith)
                (omega arith) (ground arith) in
            let none_left : less - i ≡ 0 = ground arith in
            (
              t.wss ∷ out,
              v,
              s,
              rw (rounds_from, inside, marked, ◌>>=◌, slept, ◌>>=◌, long) refl,
              ap suc count,
              rw (rounds_from, late, none_left) refl,
            )
      ]

  start_with-take :
      (less more : ℕ) (ts : Task k) (s : State k)
      → ts.pid ≡ pid
      → less ≤ more
      → (out : List ℕ) × (t : State k) × (u : State k) × (start_with k more fuel pid
            (some ts)
            world
            s
          ≡ ok (out, t))
        × (length out ≡ more)
        × (start_with k less fuel pid (some ts) world s ≡ ok (take less out, u))
  unfolding start_with
  start_with-take less more ts s own le =
      let (out, t, u, long, count, short) =
        rounds_from-Both more less more (suc more) (suc less) 0 (record s { hooked = true })
          (omega arith) le (omega arith) (omega arith) (omega arith) in
      let all : less - 0 ≡ less = omega arith in
      let here : (ts.pid == pid) ≡ true = rw own (==-self pid) in
      (out, t, u, rw (here) long, count, rw (here) (short ∙ rw all refl))

  -- If the process is found, and is in no round a kernel thread, nor is any task whose page fault is
  -- reported, and its areas fit, then the three modules come to their ends without a fault. wss3.c
  -- prints 40 lines, and wss5.c and wss4.c print the first 30 and the first 10 of these.
  pub start3-start5-start4 :
      (ts : Task k) (s : State k)
      → ts.pid ≡ pid
      → (out : List ℕ) × (length out ≡ 40)
        × Ends (λ (o, t). o ≡ out) (start3 k fuel pid (some ts) world s)
        × Ends (λ (o, t). o ≡ take 30 out) (start5 k fuel pid (some ts) world s)
        × Ends (λ (o, t). o ≡ take 10 out) (start4 k fuel pid (some ts) world s)
  start3-start5-start4 ts s own =
      let (out, t, u, long, count, short) = start_with-take 30 40 ts s own (omega arith) in
      let (out', t', u', long', count', short') = start_with-take 10 40 ts s own (omega arith) in
      let same : out' ≡ out = ap lines (sym long' ∙ long) in
      (out, count, rw long (ends refl), rw short (ends refl), rw short' (ends (rw same refl)))
