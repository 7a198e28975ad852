-- ===== src/Kernel/Flat.antt =====
-- A small page table that behaves as `Paging` asks: page `i` of a process has its entry at `i + 1`,
-- and the pages from a limit on have no directory.
use lkms.Prelude.{ℕ, ◌+◌, ◌/◌, ◌≡◌, refl, Bool, true, false, not, ◌&&◌, ◌||◌, ltb, page_size, arith}
use lkms.Kernel.Paging.{Paging, Flag, present, protnone, same_flag}

pub record FlatPte : Type 0 where
  pub is_present : Bool
  pub is_protnone : Bool

abbrev pub flat_has : FlatPte → Flag → Bool
flat_has p present = p.is_present
flat_has p protnone = p.is_protnone

abbrev pub flat_set : FlatPte → Flag → FlatPte
flat_set p present = record p { is_present = true }
flat_set p protnone = record p { is_protnone = true }

abbrev pub flat_clear : FlatPte → Flag → FlatPte
flat_clear p present = record p { is_present = false }
flat_clear p protnone = record p { is_protnone = false }

pub flat_has-set :
    (p : FlatPte) (f g : Flag) → flat_has (flat_set p f) g ≡ (same_flag f g || flat_has p g)
flat_has-set p present present = refl
flat_has-set p present protnone = refl
flat_has-set p protnone present = refl
flat_has-set p protnone protnone = refl

pub flat_has-clear :
    (p : FlatPte) (f g : Flag) → flat_has (flat_clear p f) g ≡ (not (same_flag f g) && flat_has p g)
flat_has-clear p present present = refl
flat_has-clear p present protnone = refl
flat_has-clear p protnone present = refl
flat_has-clear p protnone protnone = refl

pub flat_any :
    (p : FlatPte) (f : Flag) → flat_has p f ≡ true → (p.is_present || p.is_protnone) ≡ true
flat_any p present h = ground arith
flat_any p protnone h = ground arith

abbrev pub flat_paging : Paging
flat_paging = record {
  Mm = ℕ;
  Pgd = Bool;
  Pud = ℕ;
  Pmd = ℕ;
  pgd_offset = λ limit addr. ltb (addr / page_size) limit;
  pgd_none = λ b. not b;
  pgd_bad = λ b. false;
  pud_offset = λ b addr. addr;
  pud_none = λ n. false;
  pud_bad = λ n. false;
  pmd_offset = λ n addr. n;
  pmd_none = λ n. false;
  pmd_bad = λ n. false;
  pte_offset = λ n addr. addr / page_size + 1;
  Pte = FlatPte;
  pte_set_flags = flat_set;
  pte_clear_flags = flat_clear;
  has_flag = flat_has;
  any_flag = λ p. p.is_present || p.is_protnone;
  pte_present = λ p. p.is_present || p.is_protnone;
  has-set = flat_has-set;
  has-clear = flat_has-clear;
  present_iff = λ p. refl;
  any_of_has = flat_any;
}
