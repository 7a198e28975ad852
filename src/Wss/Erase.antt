-- ===== src/Wss/Erase.antt =====
-- workingwss.c and wss4.c, step by step: what workingwss.c does to the entries and the count is what
-- wss4.c does, which keeps no list.
use lkms.Prelude.{
  ℕ, zero, suc, ◌≡◌, refl, sym, ◌∙◌, ap, ◌==◌, Bool-cases, inl, inr, true, false, Option-cases,
  Option, none, some, List, [], ◌∷◌, ℤ, pos, ◌==ℤ◌, leb, add64, page_size,
}
use lkms.Kernel.Run.{Run, ok, ◌>>=◌, >>=-ok}
use lkms.Kernel.Paging.{Paging, Vma, Walk, no_pgd, no_pud, no_pmd, entry, descend}
use lkms.Kernel.Walks.{walk_pages, walk_vmas}
use lkms.Wss.{
  State, Task, Event, page_fault, kernel_sets, link, protect, append, mark_entry, mark_page,
  mark_area, mark_areas, wss_marking,
}
use lkms.Wss.Memory.{Allocator}
use lkms.WssZero as Plain

module _ (k : Paging) where
  open k use {Mm, Pte}

  -- The state without the list.
  abbrev pub erase : State k → Plain.State k
  erase s = record { ptes = s.ptes; wss = s.wss; hooked = s.hooked }

  abbrev pub task_of : Plain.Task k → Task k
  task_of ts = record { pid = ts.pid; mm = ts.mm; mmap = ts.mmap }

  abbrev pub task_found : Option (Plain.Task k) → Option (Task k)
  task_found none = none
  task_found (some ts) = some (task_of ts)

  abbrev pub event_of : Plain.Event k → Event k
  event_of (Plain.page_fault e) = page_fault (task_found e.task) e.addr e.pidd
  event_of (Plain.kernel_sets p v) = kernel_sets p v

  abbrev pub events_of : List (Plain.Event k) → List (Event k)
  events_of [] = []
  events_of (e ∷ es) = event_of e ∷ events_of es

  -- Where the first run comes to a value, the second comes to the same, without the list.
  abbrev pub Erases : {A : Type 0} → Run (A × State k) → Run (A × Plain.State k) → Type 0
  Erases {A} m n = (a : A) (t : State k) → m ≡ ok (a, t) → n ≡ ok (a, erase t)

  erase_of_ok : (s t : State k) → ok s ≡ ok t → erase t ≡ erase s
  erase_of_ok s t e = cc

  abbrev erased : {A : Type 0} → Run (A × State k) → Run (A × Plain.State k)
  erased m = m >>= λ (a, t). ok (a, erase t)

  Erases-ok : {A : Type 0} (a : A) (s : State k) → Erases (ok (a, s)) (ok (a, erase s))
  Erases-ok a s b t e = ap erased e

  pub Erases->>= :
      {A B : Type 0} (m : Run (A × State k)) (n : Run (A × Plain.State k))
      (f : A × State k → Run (B × State k)) (g : A × Plain.State k → Run (B × Plain.State k))
      → Erases m n
      → ((a : A) (t : State k) → Erases (f (a, t)) (g (a, erase t)))
      → Erases (m >>= f) (n >>= g)
  Erases->>= m n f g first next b t e =
      let ((a, u), rest, run) = >>=-ok m f e in
      ap (λ r. r >>= g) (first a u run) ∙ next a u b t rest

  module _ (al : Allocator k) where
    append-erase :
        (fuel : ℕ) (v : Pte) (s t : State k) → append k al fuel v s ≡ ok t → erase t ≡ erase s
    unfolding append
    append-erase fuel v s t e =
        let temp = al.malloc s.heap in
        elim (Bool-cases (temp == 0)) [
          | inl full ↦ absurd (cc (rw full at e))
          | inr got ↦ elim (Bool-cases (s.head == 0)) [
            | inl nil ↦ erase_of_ok _ t (rw (got, nil) at e)
            | inr some_node ↦
                let (h, f, l) =
                  >>=-ok (link k fuel ((temp, record { addr = v; next = 0 }) ∷ s.heap) s.head temp)
                    _ (rw (got, some_node) at e) in
                erase_of_ok (record s { heap = h }) t f
          ]
        ]

    mark_entry-Erases :
        (fuel p : ℕ) (s : State k)
        → Erases (mark_entry k al fuel p s) (Plain.mark_entry k p (erase s))
    unfolding mark_entry Plain.mark_entry protect Plain.protect
    mark_entry-Erases fuel p s r t e = elim (Bool-cases (p == 0)) [
      | inl z ↦ rw z (ap erased (rw z at e))
      | inr ne ↦ elim (Bool-cases (k.pte_present (s.ptes p))) [
        | inl here ↦
            let (u, same, run) =
              >>=-ok
                (append k al fuel (protect k s.ptes p p) (record s { ptes = protect k s.ptes p })) _
                (rw (ne, here) at e) in
            rw (ne, here)
              (ap (λ x. ok (pos 0, x))
                  (sym (
                    append-erase fuel (protect k s.ptes p p)
                      (record s { ptes = protect k s.ptes p }) u run))
                ∙ ap erased same)
        | inr absent ↦ rw (ne, absent) (ap erased (rw (ne, absent) at e))
      ]
    ]

    mark_page-Erases :
        (fuel : ℕ) (mm : Mm) (addr : ℕ) (s : State k)
        → Erases (mark_page k al fuel mm addr s) (Plain.mark_page k mm addr (erase s))
    unfolding mark_page Plain.mark_page
    mark_page-Erases fuel mm addr s = go (descend k mm addr) refl
      where
        go :
            (w : Walk)
            → descend k mm addr ≡ w
            → Erases (mark_page k al fuel mm addr s) (Plain.mark_page k mm addr (erase s))
        go no_pgd e = rw (mark_page, Plain.mark_page, e) (Erases-ok _ s)
        go no_pud e = rw (mark_page, Plain.mark_page, e) (Erases-ok _ s)
        go no_pmd e = rw (mark_page, Plain.mark_page, e) (Erases-ok _ s)
        go (entry p) e = rw (mark_page, Plain.mark_page, e) (mark_entry-Erases fuel p s)

    -- What follows on a result of 0, in both.
    then-Erases :
        (r : ℤ) (s : State k) (m : Run (ℤ × State k)) (n : Run (ℤ × Plain.State k))
        → Erases m n
        → Erases
            (elim (r ==ℤ pos 0) as (λ _. Run (ℤ × State k)) [ true ↦ m | false ↦ ok (r, s) ])
            (elim (r ==ℤ pos 0) as (λ _. Run (ℤ × Plain.State k)) [
              | true ↦ n
              | false ↦ ok (r, erase s)
            ])
    then-Erases r s m n same = elim (Bool-cases (r ==ℤ pos 0)) [
      | inl done ↦ rw done same
      | inr other ↦ rw other (Erases-ok r s)
    ]

    mark_area-Erases :
        (rounds fuel : ℕ) (mm : Mm) (i b : ℕ) (s : State k)
        → Erases
            (mark_area k al rounds fuel mm i b s)
            (walk_pages (Plain.mark_page k mm) rounds i b (erase s))
    unfolding mark_area walk_pages
    mark_area-Erases zero fuel mm i b s = λ r t e. cc
    mark_area-Erases (suc rounds) fuel mm i b s = elim (Bool-cases (leb i b)) [
      | inl inside ↦
          rw (mark_area, walk_pages, inside)
            (Erases->>= (mark_page k al fuel mm i s) (Plain.mark_page k mm i (erase s)) _ _
              (mark_page-Erases fuel mm i s)
              (λ r t.
                then-Erases r t _ _ (mark_area-Erases rounds fuel mm (add64 i page_size) b t)))
      | inr over ↦ rw (mark_area, walk_pages, over) (Erases-ok (pos 0) s)
    ]

    mark_areas-Erases :
        (fuel : ℕ) (mm : Mm) (vs : List Vma) (s : State k)
        → Erases (mark_areas k al fuel mm vs s) (walk_vmas (Plain.mark_page k mm) fuel vs (erase s))
    unfolding mark_areas walk_vmas
    mark_areas-Erases fuel mm [] s = Erases-ok (pos 0) s
    mark_areas-Erases fuel mm (v ∷ vs) s =
        Erases->>= (mark_area k al fuel fuel mm v.vm_start v.vm_end s)
          (walk_pages (Plain.mark_page k mm) fuel v.vm_start v.vm_end (erase s)) _ _
          (mark_area-Erases fuel fuel mm v.vm_start v.vm_end s)
          (λ r t. then-Erases r t _ _ (mark_areas-Erases fuel mm vs t))

    pub wss_marking-Erases :
        (fuel : ℕ) (ts : Plain.Task k) (s : State k)
        → Erases
            (wss_marking k al fuel (some (task_of ts)) s)
            (Plain.wss_marking k fuel (some ts) (erase s))
    unfolding wss_marking Plain.wss_marking
    wss_marking-Erases fuel ts s = elim (Option-cases ts.mm) [
      | inl kernel ↦ rw (wss_marking, Plain.wss_marking, kernel) (λ r t e. cc)
      | inr (mm, user) ↦
          rw (wss_marking, Plain.wss_marking, user) (mark_areas-Erases fuel mm ts.mmap s)
    ]
