-- ===== src/Wss/Append.antt =====
-- workingwss.c, the list of recorded entries: `append` adds at the end.
use lkms.Prelude.{
  ℕ, zero, suc, ◌<◌, ◌≡◌, ◌≢◌, refl, ◌∙◌, ==-self, ==_of_ne, eq_of_==, none, some, List, [], ◌∷◌,
  ◌++◌, arith, length,
}
use lkms.Kernel.Run.{ok, ◌>>=◌}
use lkms.Kernel.Paging.{Paging}
use lkms.Wss.{State, link, append}
use lkms.Wss.Memory.{Node, Heap, cell, load, store, Allocator}

module _ (k : Paging) where
  open k use {Pte}

  -- From `p` the `next` pointers lead through nodes with these entries to NULL.
  pub data Chain (h : Heap k) : ℕ → List Pte → Type 0 where
    nil : {p : ℕ} → p ≡ 0 → Chain h p []
    cons :
        {p q : ℕ} {v : Pte} {vs : List Pte}
        → p ≢ 0
        → cell k h p ≡ some (record { addr = v; next = q })
        → Chain h q vs
        → Chain h p (v ∷ vs)

  pub load-ok : (h : Heap k) (p : ℕ) (n : Node k) → p ≢ 0 → cell k h p ≡ some n → load k h p ≡ ok n
  unfolding load
  load-ok h p n ne e = rw (==_of_ne p 0 ne, e)

  cell-fresh :
      (h : Heap k) (t p : ℕ) (n m : Node k)
      → cell k h t ≡ none
      → cell k h p ≡ some m
      → cell k ((t, n) ∷ h) p ≡ some m
  unfolding cell
  cell-fresh h t p n m new e = ground (arith, eq_of_== t p)

  cell-head : (h : Heap k) (p : ℕ) (n : Node k) → cell k ((p, n) ∷ h) p ≡ some n
  unfolding cell
  cell-head h p n = rw (==-self p)

  cell-other : (h : Heap k) (p x : ℕ) (n : Node k) → p ≢ x → cell k ((p, n) ∷ h) x ≡ cell k h x
  unfolding cell
  cell-other h p x n ne = rw (==_of_ne p x ne)

  pub null_of_nil : (h : Heap k) (p : ℕ) → Chain h p [] → p ≡ 0
  null_of_nil h p (nil e) = e

  pub ne_null_of_cons : (h : Heap k) (p : ℕ) (v : Pte) (vs : List Pte) → Chain h p (v ∷ vs) → p ≢ 0
  ne_null_of_cons h p v vs (cons ne e c) = ne

  store-ok :
      (h : Heap k) (p : ℕ) (n m : Node k)
      → p ≢ 0
      → cell k h p ≡ some m
      → store k h p n ≡ ok ((p, n) ∷ h)
  unfolding store
  store-ok h p n m ne e = rw (load-ok h p m ne e)

  -- Nodes whose `next` is not NULL are the same in both heaps.
  abbrev KeepsInner : Heap k → Heap k → Type 0
  KeepsInner h h' = (x : ℕ) (n : Node k) → cell k h x ≡ some n → n.next ≢ 0 → cell k h' x ≡ some n

  abbrev Appended : ℕ → Heap k → (p t : ℕ) → Pte → List Pte → Type 0
  Appended fuel h p t a vs =
      let h1 : Heap k = (t, record { addr = a; next = 0 }) ∷ h in
      (h' : Heap k) × (link k fuel h1 p t ≡ ok h') × Chain h' p (vs ++ a ∷ []) × KeepsInner h1 h'

  link-next :
      (fuel : ℕ) (h : Heap k) (p q t : ℕ) (v : Pte)
      → load k h p ≡ ok (record { addr = v; next = q })
      → q ≢ 0
      → link k (suc fuel) h p t ≡ link k fuel h q t
  unfolding link
  link-next fuel h p q t v e ne = rw (e, ◌>>=◌, ==_of_ne q 0 ne)

  link-stop :
      (fuel : ℕ) (h : Heap k) (p q t : ℕ) (v : Pte)
      → load k h p ≡ ok (record { addr = v; next = q })
      → q ≡ 0
      → link k (suc fuel) h p t ≡ store k h p (record { addr = v; next = t })
  unfolding link
  link-stop fuel h p q t v e z = rw (e, ◌>>=◌, z)

  KeepsInner-last :
      (h : Heap k) (p q : ℕ) (n : Node k) (v : Pte)
      → cell k h p ≡ some (record { addr = v; next = q })
      → q ≡ 0
      → KeepsInner h ((p, n) ∷ h)
  unfolding cell
  KeepsInner-last h p q n v e z x m f ne = ground (arith, eq_of_== p x)

  link-last :
      (fuel : ℕ) (h : Heap k) (p q t : ℕ) (a v : Pte)
      → t ≢ 0
      → cell k h t ≡ none
      → p ≢ 0
      → cell k h p ≡ some (record { addr = v; next = q })
      → q ≡ 0
      → Appended (suc fuel) h p t a (v ∷ [])
  link-last fuel h p q t a v tn new pn e z =
      let new_node : Node k = record { addr = a; next = 0 } in
      let h1 : Heap k = (t, new_node) ∷ h in
      let e1 = cell-fresh h t p new_node _ new e in
      let apart : p ≢ t = λ same. cc in
      (
        (p, record { addr = v; next = t }) ∷ h1,
        link-stop fuel h1 p q t v (load-ok h1 p _ pn e1) z ∙ store-ok h1 p _ _ pn e1,
        cons pn (cell-head h1 p _)
            (cons {q = 0} tn (cell-other h1 p t _ apart ∙ cell-head h t new_node) (nil refl)),
        KeepsInner-last h1 p q _ v e1 z,
      )

  link-Chain :
      (fuel : ℕ) (h : Heap k) {p : ℕ} (t : ℕ) (a v : Pte) (vs : List Pte)
      → t ≢ 0
      → cell k h t ≡ none
      → Chain h p (v ∷ vs)
      → length vs < fuel
      → Appended fuel h p t a (v ∷ vs)
  link-Chain zero h t a v vs tn new c f = absurd (omega arith)
  link-Chain (suc fuel) h t a v [] tn new (cons {p} {q} pn e (nil z)) f =
      link-last fuel h p q t a v tn new pn e z
  link-Chain (suc fuel) h t a v (w ∷ ws) tn new (cons {p} {q} pn e c) f =
      let (h', run, chain, same) = link-Chain fuel h t a w ws tn new c (omega arith) in
      let qn = ne_null_of_cons h q w ws c in
      let h1 : Heap k = (t, record { addr = a; next = 0 }) ∷ h in
      let e1 = cell-fresh h t p (record { addr = a; next = 0 }) _ new e in
      (
        h',
        link-next fuel h1 p q t v (load-ok h1 p _ pn e1) qn ∙ run,
        cons pn (same p (record { addr = v; next = q }) e1 qn) chain,
        same,
      )

  module _ (m : Allocator k) where
    -- What `append` promises: it comes to its end, the list has `a` behind its entries, and nothing
    -- but the list has changed.
    pub record Recorded (a : Pte) (vs : List Pte) (s : State k) (t : State k) : Type 0 where
      pub chain : Chain t.heap t.head (vs ++ a ∷ [])
      pub ptes : t.ptes ≡ s.ptes
      pub wss : t.wss ≡ s.wss
      pub hooked : t.hooked ≡ s.hooked

    append-null :
        (fuel : ℕ) (a : Pte) (s : State k)
        → m.malloc s.heap ≢ 0
        → s.head ≡ 0
        → append k m fuel a s
          ≡ ok (record s {
            heap = (m.malloc s.heap, record { addr = a; next = 0 }) ∷ s.heap;
            head = m.malloc s.heap;
          })
    unfolding append
    append-null fuel a s ne z = ground arith

    append-link :
        (fuel : ℕ) (a : Pte) (s : State k) (h' : Heap k)
        → m.malloc s.heap ≢ 0
        → s.head ≢ 0
        → link k fuel
            ((m.malloc s.heap, record { addr = a; next = 0 }) ∷ s.heap)
            s.head
            (m.malloc s.heap)
          ≡ ok h'
        → append k m fuel a s ≡ ok (record s { heap = h' })
    unfolding append
    append-link fuel a s h' ne hn e = ground arith

    -- If `malloc` succeeds and the fuel exceeds the length of the list, `append` puts the entry at
    -- the end of the list, without a fault, and changes nothing else.
    pub append-Chain :
        (fuel : ℕ) (a : Pte) (vs : List Pte) (s : State k)
        → m.malloc s.heap ≢ 0
        → Chain s.heap s.head vs
        → length vs < fuel
        → (t : State k) × (append k m fuel a s ≡ ok t) × Recorded a vs s t
    append-Chain fuel a [] s ne c f = (
      _,
      append-null fuel a s ne (null_of_nil s.heap s.head c),
      record {
        chain = cons ne (cell-head s.heap (m.malloc s.heap) _) (nil refl);
        ptes = refl;
        wss = refl;
        hooked = refl;
      },
    )
    append-Chain fuel a (v ∷ vs) s ne c f =
        let hn = ne_null_of_cons s.heap s.head v vs c in
        let (h', run, chain, same) =
          link-Chain fuel s.heap (m.malloc s.heap) a v vs ne (m.fresh s.heap ne) c (omega arith) in
        (
          record s { heap = h' },
          append-link fuel a s h' ne hn run,
          record { chain = chain; ptes = refl; wss = refl; hooked = refl },
        )
