-- ===== src/Mpi/Ledger.antt =====
-- A ledger of the entries that the completion managers hold. Each entry has a weight by its
-- operation, and a statement `L` relates the total to the counters; whatever completes an entry
-- has to settle its weight there.
use lcw.Base.{
  ℕ, ◌+◌, ◌++◌, ◌≡◌, refl, subst, sym, Option, none, some, List, arith, get_elem?,
  get_elem?-set_self, lt-length_of_some, total, total-set, modify, or_fault, Post, Holds,
  Holds-bind, bad_pointer,
}
use lcw.Api.{OpT}
use lcw.Comp.{Host, signal_comp-counters}
use lcw.Mpi.Types.{EntryT, ManagerT, req, cont, freed, State, manager_at, write_manager}
use lcw.Mpi.Signal.{signal_comp, account, account-managers}
use lcw.Mpi.Frame.{Books, Core, books, On, in_runtime-Keeps}

abbrev pub entries : ManagerT → List EntryT
entries (req es l) = es
entries (cont r held l) = held
entries (freed lost held) = lost ++ held

module _ (w : OpT → ℕ) where
  abbrev pub weight : List EntryT → ℕ
  weight = total (λ e. w e.request.op)

  -- The weight of all that the managers hold.
  abbrev pub load : List ManagerT → ℕ
  load = total (λ m. weight (entries m))

module _ (w : OpT → ℕ) (L : ℕ → Books → Type 0) where
  -- `x` is the weight of an entry that is on its way.
  abbrev pub Hand : ℕ → Core → Type 0
  Hand x c = L (x + load w c.managers) c.books

  abbrev pub Inv : Core → Type 0
  Inv c = L (load w c.managers) c.books

  -- The same, while the manager at `p` is `m`.
  abbrev pub At : ℕ → ManagerT → ℕ → Core → Type 0
  At p m x c = (get_elem? c.managers p ≡ some m) × Hand x c

  pub Hand-zero : (c : Core) → Hand 0 c → Inv c
  Hand-zero c h = subst (λ n. L n c.books) (omega arith) h

  pub Inv-Hand : (c : Core) → Inv c → Hand 0 c
  Inv-Hand c h = subst (λ n. L n c.books) (omega arith) h

module _ {W : Type 0} (w : OpT → ℕ) (L : ℕ → Books → Type 0) where
  pub manager_at-Holds :
      (p x : ℕ) → Holds {S = State W} (On (Hand w L x)) (manager_at p) (λ m. On (At w L p m x))
  manager_at-Holds p x = record { at = λ s h. go s (get_elem? s.managers p) refl h }
    where
      go :
          (s : State W) (o : Option ManagerT)
          → get_elem? s.managers p ≡ o
          → On (Hand w L x) s
          → Post (λ m. On (At w L p m x)) (or_fault o bad_pointer s)
      go s none e h = tt
      go s (some m) e h = (e, h)

  pub write_manager-Holds :
      (p x y : ℕ) (m m' : ManagerT)
      → y + weight w (entries m') ≡ x + weight w (entries m)
      → Holds {S = State W} (On (At w L p m x)) (write_manager p m') (λ _. On (At w L p m' y))
  write_manager-Holds p x y m m' e = record {
    at = λ s h. (
      get_elem?-set_self s.managers p m' (lt-length_of_some s.managers p h.0),
      subst (λ n. L n (books s))
          (omega (arith, total-set (λ m. weight w (entries m)) s.managers p m' h.0)) h.1,
    );
  }

-- What settles the weight of an entry when it is signalled.
abbrev pub Settles : Type 0 → (OpT → ℕ) → (ℕ → Books → Type 0) → Type 0
Settles W w L =
    (op : OpT) (x : ℕ) (s : State W) → L (w op + x) (books s) → L x (books (account op s))

module _ {W : Type 0} (host : Host W) (w : OpT → ℕ) (L : ℕ → Books → Type 0)
    (settles : Settles W w L) where
  account-Holds :
      (op : OpT)
      → Holds {S = State W} (On (Hand w L (w op))) (modify (account op)) (λ _. On (Inv w L))
  account-Holds op = record {
    at = λ s h.
        subst (λ ms. L (load w ms) (books (account op s))) (sym (account-managers op s))
          (settles op _ s h);
  }

  pub signal_comp-Holds :
      (e : EntryT) → Holds (On (Hand w L (w e.request.op))) (signal_comp host e) (λ _. On (Inv w L))
  unfolding signal_comp
  signal_comp-Holds e =
      Holds-bind _ (λ _. On (Inv w L)) _ _ (account-Holds e.request.op)
        λ _. in_runtime-Keeps (Inv w L) _ λ c. signal_comp-counters host c e.completion e.request
