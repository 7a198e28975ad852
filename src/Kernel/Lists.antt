-- ===== src/Kernel/Lists.antt =====
-- linux/list.h as the modules use it: a head with a circular list of entries.
use lkms.Prelude.{ℕ, ◌≡◌, refl, List, [], ◌∷◌, ◌++◌}

pub record ListHeads : Type 1 where
  pub Head : Type 0
  -- The addresses of the entries, in the order in which list_for_each visits them.
  pub entries : Head → List ℕ
  pub init_list_head : Head
  pub list_add_tail : Head → ℕ → Head
  pub entries-init : entries init_list_head ≡ []
  pub entries-add_tail : (h : Head) (p : ℕ) → entries (list_add_tail h p) ≡ entries h ++ (p ∷ [])

-- A head that behaves so: the list of the addresses.
abbrev pub plain_lists : ListHeads
plain_lists = record {
  Head = List ℕ;
  entries = λ h. h;
  init_list_head = [];
  list_add_tail = λ h p. h ++ (p ∷ []);
  entries-init = refl;
  entries-add_tail = λ h p. refl;
}
