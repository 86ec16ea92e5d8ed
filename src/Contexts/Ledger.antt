-- ===== src/Contexts/Ledger.antt =====
-- The requests that are live against the user contexts that the library has and has not handed back.
use lcw.Base.{
  ℕ, zero, suc, ◌+◌, ◌≡◌, refl, sym, ap, ◌∙◌, Option, none, some, List, [], ◌∷◌, ◌++◌, length,
  get_elem?, set, deref, total, total-append, total-set, get_elem?-append_length, ◌==◌,
  if◌then◌else◌, arith, Holds, Keeps, Keeps-or_fault, modify, bad_pointer,
}
use lcw.Api.{Ptr, RequestT}
use lcw.Pcounter.{Trend}
use lcw.Comp.{count}
use lcw.Contexts.{
  State, in_world, with_world, device_at, new_device, next_id, new_request, delete_request,
  request_at, run,
}

-- 1 at `p`.
abbrev pub at : ℕ → ℕ → ℕ
at p q = if q == p then 1 else 0

abbrev pub present : Option RequestT → ℕ
present none = 0
present (some r) = 1

-- A call that takes no user context and hands none back.
abbrev pub Leaves : {W : Type 0} → (W → ℕ → ℕ) → (W → W) → Type 0
Leaves {W} owed g = (w : W) (q : ℕ) → owed (g w) q ≡ owed w q

-- 1 for a request that has not been deleted.
abbrev pub live : List (Option RequestT) → ℕ → ℕ
live cs p = present (deref (get_elem? cs p))

abbrev pub weigh : (RequestT → ℕ) → Option RequestT → ℕ
weigh f none = 0
weigh f (some r) = f r

at-suc : (p q : ℕ) → at (suc p) (suc q) ≡ at p q
at-suc p q = ground arith

pub at_self : (p : ℕ) → at p p ≡ 1
at_self p = ground arith

pub live-append :
    (cs : List (Option RequestT)) (r : RequestT) (q : ℕ)
    → live (cs ++ some r ∷ []) q ≡ live cs q + at (length cs) q
live-append [] r zero = refl
live-append [] r (suc q) = ground arith
live-append (c ∷ cs) r zero = ground arith
live-append (c ∷ cs) r (suc q) = omega (arith, live-append cs r q, at-suc (length cs) q)

pub live-set :
    (cs : List (Option RequestT)) (p q : ℕ) {r : RequestT}
    → get_elem? cs p ≡ some (some r)
    → live cs q ≡ live (set cs p none) q + at p q
live-set [] p q h = absurd cc
live-set (c ∷ cs) zero zero h = ground arith
live-set (c ∷ cs) zero (suc q) h = ground arith
live-set (c ∷ cs) (suc p) zero h = ground arith
live-set (c ∷ cs) (suc p) (suc q) h = omega (arith, live-set cs p q h, at-suc p q)

-- What lives is there.
pub alive_there :
    (cs : List (Option RequestT)) (p k : ℕ)
    → live cs p ≡ k + at p p
    → (r : RequestT) × (get_elem? cs p ≡ some (some r))
alive_there [] p k e = absurd (omega (arith, e, at_self p))
alive_there (none ∷ cs) zero k e = absurd (omega (arith, e, at_self zero))
alive_there (some r ∷ cs) zero k e = (r, refl)
alive_there (c ∷ cs) (suc p) k e = alive_there cs p k (omega (arith, e, at-suc p p))

-- `owed` counts how often the library has a user context; `n` is what the requests that live weigh.
pub record Ledger {D W : Type 0} (owed : W → ℕ → ℕ) (f : RequestT → ℕ) (n : ℕ) (s : State D W)
    : Type 0 where
  pub alive : (q : ℕ) → owed s.world q ≡ live s.contexts q
  pub weight : total (weigh f) s.contexts ≡ n

-- In between, one more request, `r` at `p`, lives than the library knows.
pub record Opened {D W : Type 0} (owed : W → ℕ → ℕ) (f : RequestT → ℕ) (n p : ℕ) (r : RequestT)
    (s : State D W) : Type 0 where
  pub there : get_elem? s.contexts p ≡ some (some r)
  pub alive : (q : ℕ) → owed s.world q + at p q ≡ live s.contexts q
  pub weight : total (weigh f) s.contexts ≡ n + f r

module _ {D W : Type 0} (owed : W → ℕ → ℕ) (f : RequestT → ℕ) where
  pub new_request-Opened :
      (n : ℕ) (r : RequestT)
      → Holds {S = State D W} (Ledger owed f n) (new_request r) (λ p. Opened owed f n p r)
  unfolding new_request
  new_request-Opened n r = record {
    at = λ s h. record {
      there = get_elem?-append_length s.contexts (some r);
      alive = λ q. omega (arith, h.alive q, live-append s.contexts r q);
      weight = omega (arith, h.weight, total-append (weigh f) s.contexts (some r ∷ []));
    };
  }

  pub delete_request-Ledger :
      (n p : ℕ) (r : RequestT)
      → Holds {S = State D W} (Opened owed f n p r) (delete_request p) (λ _. Ledger owed f n)
  unfolding delete_request
  delete_request-Ledger n p r = record {
    at = λ s h.
        let l : Ledger owed f n (record s { contexts = set s.contexts p none }) = record {
          alive = λ q. omega (arith, h.alive q, live-set s.contexts p q h.there);
          weight = omega (arith, h.weight, total-set (weigh f) s.contexts p none h.there);
        } in
        rw (ap deref h.there) l;
  }

  pub next_id-Ledger : (n : ℕ) → Keeps (Ledger {D = D} owed f n) next_id
  unfolding next_id
  next_id-Ledger n = record { at = λ s h. record { alive = h.alive; weight = h.weight } }

  pub new_device-Ledger : (n : ℕ) (d : D) → Keeps (Ledger owed f n) (new_device d)
  unfolding new_device
  new_device-Ledger n d = record { at = λ s h. record { alive = h.alive; weight = h.weight } }

  pub count-Ledger :
      (n : ℕ) (t : Trend)
      → Keeps (Ledger {D = D} owed f n) (modify (λ s. record s { runtime = count t s.runtime }))
  count-Ledger n t = record { at = λ s h. record { alive = h.alive; weight = h.weight } }

  -- A call of the library that takes no user context and hands none back.
  pub modify-Ledger :
      (n : ℕ) (g : W → W) → Leaves owed g → Keeps (Ledger {D = D} owed f n) (in_world (modify g))
  modify-Ledger n g l = record {
    at = λ s h. record { alive = λ q. l s.world q ∙ h.alive q; weight = h.weight };
  }

  pub run-Ledger :
      {A : Type 0} (n : ℕ) (g : W → A × W)
      → Leaves owed (λ w. (g w).1)
      → Keeps (Ledger {D = D} owed f n) (in_world (run g))
  run-Ledger n g l = record {
    at = λ s h. record { alive = λ q. l s.world q ∙ h.alive q; weight = h.weight };
  }

  -- After a user context has been handed back: its request is there, and is the only one that lives
  -- and is not owed.
  pub record Returned (n p : ℕ) (s : State D W) : Type 0 where
    pub request : RequestT
    pub rest : ℕ
    pub opened : Opened owed f rest p request s
    pub split : rest + f request ≡ n

  pub returned :
      (n p : ℕ) (s : State D W) (w : W)
      → Ledger owed f n s
      → ((q : ℕ) → owed s.world q ≡ owed w q + at p q)
      → Returned n p (with_world w s)
  returned n p s w h back =
      let (r, e) = alive_there s.contexts p (owed w p) (sym (h.alive p) ∙ back p) in
      record {
        request = r;
        rest = total (weigh f) (set s.contexts p none);
        opened = record {
          there = e;
          alive = λ q. omega (arith, back q, h.alive q);
          weight = omega (arith, total-set (weigh f) s.contexts p none e);
        };
        split = omega (arith, total-set (weigh f) s.contexts p none e, h.weight);
      }

  -- Its request is found: the pointer that the library hands back does not dangle.
  pub request_at-Returned :
      (n p : ℕ)
      → Holds {S = State D W}
          (Returned n p)
          (request_at p)
          (λ r s. (m : ℕ) × Opened owed f m p r s × (m + f r ≡ n))
  unfolding request_at
  request_at-Returned n p = record {
    at = λ s h. rw (ap deref h.opened.there) (h.rest, h.opened, h.split);
  }

pub device_at-Keeps : {D W : Type 0} (P : State D W → Type 0) (p : Ptr) → Keeps P (device_at p)
unfolding device_at
device_at-Keeps P none = record { at = λ s h. tt }
device_at-Keeps P (some p) = record {
  at = λ s h. (Keeps-or_fault P (get_elem? s.devices p) bad_pointer).at s h;
}
