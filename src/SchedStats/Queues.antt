-- ===== src/SchedStats/Queues.antt =====
-- assg4/assg4.c, `hk_rq_size` and `hk_per_pid_stats` as `__schedule` calls them.
use lkms.Prelude.{
  ℕ, ap, ◌<◌, ◌≡◌, refl, ◌∙◌, sym, true, Option, some, List, [], ◌∷◌, length, length-set, get_elem?,
  set, get_elem?-set_self, get_elem?-set_ne, arith, if-elim, eq_of_==, ne_of_==, All, ◌==◌,
  if◌then◌else◌,
}
use mathlib.Core.Bool.{false≢true}
use lkms.Kernel.Run.{Run, ok, Ends, ends, Ends->>=, Ends-weaken, ◌>>=◌}
use lkms.SchedStats.{Task, Rq, Stats, hk_rq_size, hk_per_pid_stats, schedule_hooks}
use lkms.SchedStats.Arrays.{assign-set}

-- The module is loaded, and has room for the run queues of four CPUs.
pub record IsWatching (s : Stats) : Type 0 where
  pub hooked : s.rq_size ≡ true
  pub sizes : length s.grqsize ≡ 4
  pub counts : length s.switches ≡ 4

-- One call of `__schedule`, as core.c reports it.
pub record Schedule : Type 0 where
  pub rq : Rq
  pub prev : Task

abbrev pub run_schedules : List Schedule → Stats → Run Stats
run_schedules [] s = ok s
run_schedules (e ∷ es) s = schedule_hooks e.rq e.prev s >>= λ t. run_schedules es t

-- The last values that the calls report for CPU `c`, or the given ones where no call is on it.
abbrev pub last_size : (c : ℕ) → Option ℕ → List Schedule → Option ℕ
last_size c v [] = v
last_size c v (e ∷ es) = last_size c (if e.rq.cpu == c then some e.rq.nr_running else v) es

abbrev pub last_count : (c : ℕ) → Option ℕ → List Schedule → Option ℕ
last_count c v [] = v
last_count c v (e ∷ es) = last_count c (if e.rq.cpu == c then some e.rq.nr_switches else v) es

-- What one call on a CPU below 4 does to the arrays.
record Reported (e : Schedule) (s t : Stats) : Type 0 where
  watching : IsWatching t
  size :
      (c : ℕ)
      → get_elem? t.grqsize c
        ≡ (if e.rq.cpu == c then some e.rq.nr_running else get_elem? s.grqsize c)
  count :
      (c : ℕ)
      → get_elem? t.switches c
        ≡ (if e.rq.cpu == c then some e.rq.nr_switches else get_elem? s.switches c)

set-get :
    (xs : List ℕ) (i v c : ℕ)
    → i < length xs
    → get_elem? (set xs i v) c ≡ (if i == c then some v else get_elem? xs c)
set-get xs i v c h =
    if-elim (λ r. get_elem? (set xs i v) c ≡ r) (i == c)
      (λ hit. let here : i ≡ c = eq_of_== i c hit in rw (← here) (get_elem?-set_self xs i v h))
      (λ miss. get_elem?-set_ne xs i c v (ne_of_== i c miss))

hk_rq_size-Reported :
    (e : Schedule) (s : Stats)
    → IsWatching s
    → e.rq.cpu < 4
    → Ends (Reported e s) (hk_rq_size e.rq.cpu e.rq.nr_running e.rq.nr_switches s)
unfolding hk_rq_size
hk_rq_size-Reported e s is h =
    let size_fits : e.rq.cpu < length s.grqsize = omega (arith, is.sizes) in
    let count_fits : e.rq.cpu < length s.switches = omega (arith, is.counts) in
    rw
      (
        hk_rq_size,
        assign-set s.grqsize e.rq.cpu e.rq.nr_running size_fits,
        ◌>>=◌,
        assign-set s.switches e.rq.cpu e.rq.nr_switches count_fits,
        ◌>>=◌,
      )
      (ends (record {
        watching = record {
          hooked = is.hooked;
          sizes = length-set s.grqsize e.rq.cpu e.rq.nr_running ∙ is.sizes;
          counts = length-set s.switches e.rq.cpu e.rq.nr_switches ∙ is.counts;
        };
        size = λ c. set-get s.grqsize e.rq.cpu e.rq.nr_running c size_fits;
        count = λ c. set-get s.switches e.rq.cpu e.rq.nr_switches c count_fits;
      }))

hk_per_pid_stats-Reported :
    {e : Schedule} {s t : Stats} (prev : Task)
    → Reported e s t
    → Reported e s (if t.per_pid_stats then hk_per_pid_stats prev t else t)
unfolding hk_per_pid_stats
hk_per_pid_stats-Reported {e} {s} {t} prev r =
    if-elim (Reported e s) t.per_pid_stats
      (λ hooked.
        if-elim (Reported e s) (prev.pid == t.pid)
          (λ mine. record {
            watching = record {
              hooked = r.watching.hooked;
              sizes = r.watching.sizes;
              counts = r.watching.counts;
            };
            size = r.size;
            count = r.count;
          })
          (λ other. r))
      (λ unset. r)

schedule_hooks-Reported :
    (e : Schedule) (s : Stats)
    → IsWatching s
    → e.rq.cpu < 4
    → Ends (Reported e s) (schedule_hooks e.rq e.prev s)
unfolding schedule_hooks
schedule_hooks-Reported e s is h =
    Ends->>=
      (if-elim (Ends (Reported e s)) s.rq_size (λ hooked. hk_rq_size-Reported e s is h)
        (λ unset. absurd (false≢true (sym unset ∙ is.hooked))))
      (λ t r. ends (hk_per_pid_stats-Reported e.prev r))

-- What the arrays of `t` hold once the calls `es` are done from `s`.
pub record Latest (es : List Schedule) (s t : Stats) : Type 0 where
  pub size : (c : ℕ) → get_elem? t.grqsize c ≡ last_size c (get_elem? s.grqsize c) es
  pub count : (c : ℕ) → get_elem? t.switches c ≡ last_count c (get_elem? s.switches c) es

Latest-step :
    {e : Schedule} {es : List Schedule} {s t u : Stats}
    → Reported e s t
    → Latest es t u
    → Latest (e ∷ es) s u
Latest-step {es} r l = record {
  size = λ c. l.size c ∙ ap (λ v. last_size c v es) (r.size c);
  count = λ c. l.count c ∙ ap (λ v. last_count c v es) (r.count c);
}

-- While the module is loaded with its arrays of four, any sequence of calls of `__schedule` on
-- CPUs below 4 runs without a fault, and leaves in grqsize and switches, for every CPU, the length
-- and the number of switches that the last call on it reported, or what was there before if
-- there was no call on it.
pub run_schedules-Latest :
    (es : List Schedule) (s : Stats)
    → IsWatching s
    → All (λ e. e.rq.cpu < 4) es
    → Ends (Latest es s) (run_schedules es s)
run_schedules-Latest [] s is tt = ends (record { size = λ c. refl; count = λ c. refl })
run_schedules-Latest (e ∷ es) s is (h, hs) =
    Ends->>= (schedule_hooks-Reported e s is h)
      (λ t r. Ends-weaken (run_schedules-Latest es t r.watching hs) (λ u l. Latest-step r l))
