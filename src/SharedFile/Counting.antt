-- ===== src/SharedFile/Counting.antt =====
-- ex6_ver2.c: how often a file is mapped, as `reference` counts it.
use lkms.Prelude.{
  ℕ, ◌+◌, ◌-◌, ◌*◌, ◌<◌, ◌^◌, ◌%◌, ◌≡◌, ◌≢◌, refl, ◌∙◌, sym, ap, arith, some, List, [], ◌∷◌, add32,
  sub32,
}
use lkms.Kernel.Run.{Run, ok, Ends, ends, Ends->>=, Ends-weaken, ◌>>=◌}
use lkms.SharedFile.{VmArea, Device, mmap_open, mmap_close, update}
use mathlib.Core.Path.{subst}
use lkms.SharedFile.Mapping.{info_at-run, update_self, update_other}

-- A mapping is copied (by a fork) or one goes away.
pub data Change : Type 0 where
  copied gone : Change

abbrev pub run_changes : VmArea → List Change → Device → Run Device
run_changes vma [] d = ok d
run_changes vma (copied ∷ cs) d = mmap_open vma d >>= λ t. run_changes vma cs t
run_changes vma (gone ∷ cs) d = mmap_close vma d >>= λ t. run_changes vma cs t

abbrev pub copies : List Change → ℕ
copies [] = 0
copies (copied ∷ cs) = copies cs + 1
copies (gone ∷ cs) = copies cs

abbrev pub losses : List Change → ℕ
losses [] = 0
losses (copied ∷ cs) = losses cs
losses (gone ∷ cs) = losses cs + 1

-- `d` with another count in the object at `p`.
pub record Recounted (p data_at reference : ℕ) (d t : Device) : Type 0 where
  pub counted : t.infos p ≡ some (record { data_at = data_at; reference = reference })
  pub other_infos : (q : ℕ) → q ≢ p → t.infos q ≡ d.infos q
  pub pages : t.pages ≡ d.pages
  pub global_var : t.global_var ≡ d.global_var

recount :
    (p a r : ℕ) (d : Device)
    → Recounted p a r d
        (record d { infos = update d.infos p (some (record { data_at = a; reference = r })) })
recount p a r d = record {
  counted = update_self d.infos p _;
  other_infos = λ q ne. update_other d.infos p _ q (λ e. ne (sym e));
  pages = refl;
  global_var = refl;
}

recount_trans :
    {p a r r2 : ℕ} {d t u : Device}
    → Recounted p a r d t
    → Recounted p a r2 t u
    → Recounted p a r2 d u
recount_trans f g = record {
  counted = g.counted;
  other_infos = λ q ne. g.other_infos q ne ∙ f.other_infos q ne;
  pages = g.pages ∙ f.pages;
  global_var = g.global_var ∙ f.global_var;
}

mmap_open-Recounted :
    (vma : VmArea) (a r : ℕ) (d : Device)
    → vma.vm_private_data ≢ 0
    → d.infos vma.vm_private_data ≡ some (record { data_at = a; reference = r })
    → Ends (Recounted vma.vm_private_data a (add32 r 1) d) (mmap_open vma d)
unfolding mmap_open
mmap_open-Recounted vma a r d n e =
    rw (mmap_open, info_at-run vma.vm_private_data _ d e n, ◌>>=◌)
      (ends (recount vma.vm_private_data a (add32 r 1) d))

mmap_close-Recounted :
    (vma : VmArea) (a r : ℕ) (d : Device)
    → vma.vm_private_data ≢ 0
    → d.infos vma.vm_private_data ≡ some (record { data_at = a; reference = r })
    → Ends (Recounted vma.vm_private_data a (sub32 r 1) d) (mmap_close vma d)
unfolding mmap_close
mmap_close-Recounted vma a r d n e =
    rw (mmap_close, info_at-run vma.vm_private_data _ d e n, ◌>>=◌)
      (ends (recount vma.vm_private_data a (sub32 r 1) d))

-- While the file's object is there, any sequence of copied and vanished mappings runs without a
-- fault, and changes nothing but its count, which goes up by the copies and down by the others,
-- modulo 2 ^ 32.
pub run_changes-Recounted :
    (vma : VmArea) (cs : List Change) (a r : ℕ) (d : Device)
    → vma.vm_private_data ≢ 0
    → r < 2 ^ 32
    → d.infos vma.vm_private_data ≡ some (record { data_at = a; reference = r })
    → Ends
        (Recounted vma.vm_private_data a ((r + copies cs + (2 ^ 32 - 1) * losses cs) % 2 ^ 32) d)
        (run_changes vma cs d)
run_changes-Recounted vma [] a r d n small e = ends (record {
  counted =
      e
      ∙ ap (λ v. some (record { data_at = a; reference = v })) {x = r}
          {y = (r + 0 + (2 ^ 32 - 1) * 0) % 2 ^ 32} (omega arith);
  other_infos = λ q ne. refl;
  pages = refl;
  global_var = refl;
})
run_changes-Recounted vma (copied ∷ cs) a r d n small e =
    Ends->>= (mmap_open-Recounted vma a r d n e) (λ t f.
      Ends-weaken (run_changes-Recounted vma cs a (add32 r 1) t n (omega arith) f.counted) (λ u g.
        subst (λ v. Recounted vma.vm_private_data a v d u)
          {x = (add32 r 1 + copies cs + (2 ^ 32 - 1) * losses cs) % 2 ^ 32}
          {y = (r + (copies cs + 1) + (2 ^ 32 - 1) * losses cs) % 2 ^ 32} (omega arith)
          (recount_trans f g)))
run_changes-Recounted vma (gone ∷ cs) a r d n small e =
    Ends->>= (mmap_close-Recounted vma a r d n e) (λ t f.
      Ends-weaken (run_changes-Recounted vma cs a (sub32 r 1) t n (omega arith) f.counted) (λ u g.
        subst (λ v. Recounted vma.vm_private_data a v d u)
          {x = (sub32 r 1 + copies cs + (2 ^ 32 - 1) * losses cs) % 2 ^ 32}
          {y = (r + copies cs + (2 ^ 32 - 1) * (losses cs + 1)) % 2 ^ 32} (omega arith)
          (recount_trans f g)))
