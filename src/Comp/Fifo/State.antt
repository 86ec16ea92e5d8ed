-- ===== src/Comp/Fifo/State.antt =====
-- The queue objects against the lists of the specification.
use lcw.Base.{
  ℕ, zero, suc, ◌+◌, ◌≡◌, ◌≢◌, refl, sym, ap, ◌∙◌, subst, Bool, true, false, Option, none, some,
  List, [], ◌∷◌, ◌++◌, length, length-append, length-set, get_elem?, set, deref, arith, Outcome, ok,
  fault, ◌==◌, ==_iff, if◌then◌else◌, Bool-cases, inl, inr,
}
use lcw.Api.{RequestT}
use lcw.Comp.{Host, CompT, cq, handler, Runtime, QueueType}
use lcw.Comp.Fifo.{QueueLaws, Fifos, update}

module _ {W : Type 0} (contents : W → ℕ → List RequestT) (opened : W → ℕ → Bool) where
  abbrev pub Entry : W → Option CompT → Option (List RequestT) → Type 0
  Entry w none none = Unit
  Entry w (some (cq q)) (some xs) = (opened w q ≡ true) × (contents w q ≡ xs)
  Entry w _ _ = ⊥

  -- Each live queue object has its own LCT queue, which holds what the specification says.
  pub record Implements (r : Runtime W) (s : Fifos) : Type 0 where
    pub size : length r.comps ≡ s.next
    pub entry : (p : ℕ) → Entry r.world (deref (get_elem? r.comps p)) (s.queue p)
    pub own :
        (p p' q : ℕ)
        → deref (get_elem? r.comps p) ≡ some (cq q)
        → deref (get_elem? r.comps p') ≡ some (cq q)
        → p ≡ p'

  -- The same results and faults, and states that still agree.
  abbrev pub Agree : {A : Type 0} → Outcome (A × Runtime W) → Outcome (A × Fifos) → Type 0
  Agree (ok (a, r)) (ok (b, s)) = (a ≡ b) × Implements r s
  Agree (fault e) (fault e') = e ≡ e'
  Agree _ _ = ⊥

  -- An entry stands as long as its queue does.
  Entry-frame :
      (w w' : W) (c : Option CompT) (o : Option (List RequestT))
      → ((q : ℕ)
          → c ≡ some (cq q)
          → opened w q ≡ true
          → (opened w' q ≡ true) × (contents w' q ≡ contents w q))
      → Entry w c o
      → Entry w' c o
  Entry-frame w w' none none k e = e
  Entry-frame w w' none (some xs) k e = e
  Entry-frame w w' (some (cq q)) none k e = e
  Entry-frame w w' (some (cq q)) (some xs) k e = ((k q refl e.0).0, (k q refl e.0).1 ∙ e.1)
  Entry-frame w w' (some (handler f)) none k e = e
  Entry-frame w w' (some (handler f)) (some xs) k e = e

  -- One queue changes.
  pub changes :
      (r : Runtime W) (s : Fifos) (p q : ℕ) (w : W) (xs : List RequestT)
      → Implements r s
      → deref (get_elem? r.comps p) ≡ some (cq q)
      → (opened w q ≡ true) × (contents w q ≡ xs)
      → ((q' : ℕ)
          → q' ≢ q
          → (opened w q' ≡ opened r.world q') × (contents w q' ≡ contents r.world q'))
      → Implements (record r { world = w }) (update p (some xs) s)
  changes r s p q w xs h at new others = record { size = h.size; entry = entry; own = h.own }
    where
      entry :
          (p' : ℕ)
          → Entry w (deref (get_elem? r.comps p')) (if p' == p then some xs else s.queue p')
      entry p' = elim (Bool-cases (p' == p)) [
        | inl same ↦ rw (same, (==_iff p' p).0 same, at) new
        | inr other ↦ rw other (
            Entry-frame r.world w (deref (get_elem? r.comps p')) (s.queue p')
              (λ q' e o.
                let k = others q' (λ x. cc (
                  sym ((==_iff p' p).1 (h.own p' p q (e ∙ ap (λ y. some (cq y)) x) at)) ∙ other)) in
                (k.0 ∙ o, k.1))
              (h.entry p'))
      ]

  opened_of :
      (w : W) (q : ℕ) (c : Option CompT) (o : Option (List RequestT))
      → Entry w c o
      → c ≡ some (cq q)
      → opened w q ≡ true
  opened_of w q none o e at = absurd cc
  opened_of w q (some (cq q')) none e at = absurd e
  opened_of w q (some (cq q')) (some xs) e at = subst (λ c. opened w (queue_of c) ≡ true) at e.0
    where
      queue_of : Option CompT → ℕ
      queue_of (some (cq q)) = q
      queue_of _ = 0
  opened_of w q (some (handler f)) o e at = absurd cc

  get_append :
      (cs : List (Option CompT)) (c : Option CompT) (p : ℕ)
      → deref (get_elem? (cs ++ c ∷ []) p) ≡ (if p == length cs then c else deref (get_elem? cs p))
  get_append [] c zero = refl
  get_append [] c (suc p) = ground arith
  get_append (x ∷ cs) c zero = ground arith
  get_append (x ∷ cs) c (suc p) =
      get_append cs c p ∙ ap (λ b. if b then c else deref (get_elem? cs p)) (same p (length cs))
    where
      same : (a b : ℕ) → (a == b) ≡ (suc a == suc b)
      same a b = ground arith

  get_set :
      (cs : List (Option CompT)) (p' p : ℕ)
      → deref (get_elem? (set cs p none) p') ≡ (if p' == p then none else deref (get_elem? cs p'))
  get_set [] p' p = ground arith
  get_set (x ∷ cs) zero zero = refl
  get_set (x ∷ cs) (suc p') zero = ground arith
  get_set (x ∷ cs) zero (suc p) = ground arith
  get_set (x ∷ cs) (suc p') (suc p) =
      get_set cs p' p ∙ ap (λ b. if b then none else deref (get_elem? cs p')) (same p' p)
    where
      same : (a b : ℕ) → (a == b) ≡ (suc a == suc b)
      same a b = ground arith

module _ {W : Type 0} {host : Host W} {contents : W → ℕ → List RequestT} {opened : W → ℕ → Bool}
    (laws : QueueLaws host contents opened) where
  pub alloc-Implements :
      (t : QueueType) (n : ℕ) (r : Runtime W) (s : Fifos)
      → Implements contents opened r s
      → Implements contents opened
          (record r {
            comps = r.comps ++ some (cq (host.queue_alloc t n r.world).0) ∷ [];
            world = (host.queue_alloc t n r.world).1;
          })
          (record (update s.next (some []) s) { next = s.next + 1 })
  alloc-Implements t n r s h = record {
    size = omega (arith, length-append r.comps (some (cq new) ∷ []), h.size);
    entry = entry;
    own = λ p p' q e e'.
        own p p' q (p == s.next) (p' == s.next) refl refl (sym (stands p) ∙ e)
          (sym (stands p') ∙ e');
  }
    where
      new : ℕ
      new = (host.queue_alloc t n r.world).0

      stands :
          (p : ℕ)
          → deref (get_elem? (r.comps ++ some (cq new) ∷ []) p)
            ≡ (if p == s.next then some (cq new) else deref (get_elem? r.comps p))
      stands p =
          get_append contents opened r.comps (some (cq new)) p
          ∙ ap (λ k. if p == k then some (cq new) else deref (get_elem? r.comps p)) h.size

      entry :
          (p : ℕ)
          → Entry contents opened
              (host.queue_alloc t n r.world).1
              (deref (get_elem? (r.comps ++ some (cq new) ∷ []) p))
              (if p == s.next then some [] else s.queue p)
      entry p = rw (stands p) (elim (Bool-cases (p == s.next)) [
        | inl same ↦ rw same (laws.alloc_opens t n r.world, laws.alloc_empty t n r.world)
        | inr other ↦ rw other (
            Entry-frame contents opened r.world _ (deref (get_elem? r.comps p)) (s.queue p)
              (λ q e o. laws.alloc_others t n r.world q o) (h.entry p))
      ])

      fresh :
          (p q : ℕ) → some (cq new) ≡ some (cq q) → deref (get_elem? r.comps p) ≡ some (cq q) → ⊥
      fresh p q e at =
          let o =
            opened_of contents opened r.world new (deref (get_elem? r.comps p)) (s.queue p)
              (h.entry p) (at ∙ sym e) in
          cc (sym o ∙ laws.alloc_new t n r.world)

      own :
          (p p' q : ℕ) (b b' : Bool)
          → (p == s.next) ≡ b
          → (p' == s.next) ≡ b'
          → (if b then some (cq new) else deref (get_elem? r.comps p)) ≡ some (cq q)
          → (if b' then some (cq new) else deref (get_elem? r.comps p')) ≡ some (cq q)
          → p ≡ p'
      own p p' q true true x y e e' = (==_iff p s.next).0 x ∙ sym ((==_iff p' s.next).0 y)
      own p p' q true false x y e e' = absurd (fresh p' q e e')
      own p p' q false true x y e e' = absurd (fresh p q e' e)
      own p p' q false false x y e e' = h.own p p' q e e'

  pub free-Implements :
      (p q : ℕ) (r : Runtime W) (s : Fifos)
      → Implements contents opened r s
      → deref (get_elem? r.comps p) ≡ some (cq q)
      → Implements contents opened
          (record r { comps = set r.comps p none; world = host.queue_free q r.world })
          (update p none s)
  free-Implements p q r s h at = record {
    size = length-set r.comps p none ∙ h.size;
    entry = entry;
    own = λ a b k e e'.
        h.own a b k (kept a k (a == p) (sym (get_set contents opened r.comps a p) ∙ e))
          (kept b k (b == p) (sym (get_set contents opened r.comps b p) ∙ e'));
  }
    where
      kept :
          (a k : ℕ) (b : Bool)
          → (if b then none else deref (get_elem? r.comps a)) ≡ some (cq k)
          → deref (get_elem? r.comps a) ≡ some (cq k)
      kept a k true e = absurd cc
      kept a k false e = e

      entry :
          (a : ℕ)
          → Entry contents opened
              (host.queue_free q r.world)
              (deref (get_elem? (set r.comps p none) a))
              (if a == p then none else s.queue a)
      entry a = rw (get_set contents opened r.comps a p) (elim (Bool-cases (a == p)) [
        | inl same ↦ rw same tt
        | inr other ↦ rw other (
            Entry-frame contents opened r.world _ (deref (get_elem? r.comps a)) (s.queue a)
              (λ k e o.
                let f = laws.free_others q r.world k (λ x.
                  cc (
                    sym ((==_iff a p).1 (h.own a p q (e ∙ ap (λ y. some (cq y)) x) at)) ∙ other)) in
                (f.0 ∙ o, f.1))
              (h.entry a))
      ])
