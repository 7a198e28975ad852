-- ===== src/OpenFiles/Load.antt =====
-- ex9/exer9_ver3.c: loading the module and unloading it again.
use lkms.Prelude.{◌≡◌, refl, ℤ, pos, ◌==ℤ◌, true, ◌&&◌, Bool-cases, inl, inr, some, if◌then◌else◌}
use lkms.Kernel.Run.{ok, fault, ◌>>=◌}
use lkms.OpenFiles.{State, init, cleanup, with_group, kobject_put}

-- Both objects can be made: then unloading the module after loading it leaves no hold on them if
-- both groups of attributes could be made, and else faults, as one object is put twice.
pub init-cleanup :
    (group group2 : ℤ) (s : State)
    → (init true group true group2 s >>= λ (r, t). cleanup t) ≡ (
        if (group ==ℤ pos 0) && (group2 ==ℤ pos 0)
        then ok (record s { finput = some 0; foutput = some 0 })
        else fault)
unfolding init cleanup with_group kobject_put
init-cleanup group group2 s = elim (Bool-cases (group ==ℤ pos 0)) [
  | inl one ↦ elim (Bool-cases (group2 ==ℤ pos 0)) [
    | inl two ↦ rw (one, two) refl
    | inr other ↦ rw (one, other) refl
  ]
  | inr other ↦ elim (Bool-cases (group2 ==ℤ pos 0)) [
    | inl two ↦ rw (other, two) refl
    | inr other2 ↦ rw (other, other2) refl
  ]
]
