-- ===== src/Frontend/Rules.antt =====
-- How the wrappers of src/lcw.cpp pass a statement about the backend's state through: rules over
-- one backend `v`, whichever the process has chosen.
use lcw.Base.{
  assertion, then_with, Bool, true, false, Option, none, some, Outcome, ok, fault, blocked, Action,
  put_back, ◌>>=◌, if◌then◌else◌, Post, Holds, Holds-bind, Keeps, Keeps-pure,
}
use lcw.Api.{BackendT, Ptr, RequestT}
use lcw.Pcounter.{Counters, Trend, Timer}
use lcw.Pcounter
use lcw.Backend.{Backend}
use lcw.Frontend.{
  Process, backend, on_backend, count, start, end, timed, consumed, do_progress, poll_cq,
}

module _ {S : Type 0} (v : Backend S) where
  abbrev only : BackendT → Backend S
  only _ = v

  abbrev pub In : (S → Type 0) → Process S → Type 0
  In P p = P p.state

  pub backend-Holds :
      {A : Type 0} (P : S → Type 0) (f : Backend S → Action (Process S) A)
      (Q : A → Process S → Type 0)
      → Holds (In P) (f v) Q
      → Holds (In P) (backend only >>= f) Q
  unfolding backend
  backend-Holds P f Q h = record { at = λ p k. go p p.backend_p k }
    where
      go :
          (p : Process S) (o : Option BackendT)
          → In P p
          → Post Q (then_with (elim o [ none ↦ fault assertion | some b ↦ ok (v, p) ]) f)
      go p none k = tt
      go p (some b) k = h.at p k

  state-Post :
      {A : Type 0} (Q : A → S → Type 0) (p : Process S) (o : Outcome (A × S))
      → Post Q o
      → Post (λ a. In (Q a)) (put_back (λ s p. record p { state = s }) p o)
  state-Post Q p (ok (a, s)) h = h
  state-Post Q p (fault e) h = tt
  state-Post Q p blocked h = tt

  pub on_backend-Holds :
      {A : Type 0} (P : S → Type 0) (m : Action S A) (Q : A → S → Type 0)
      → Holds P m Q
      → Holds (In P) (on_backend only m) (λ a. In (Q a))
  on_backend-Holds P m Q h = record { at = λ p k. state-Post Q p (m p.state) (h.at p.state k) }

  -- A wrapper that only passes its call on.
  pub pass-Keeps :
      {A : Type 0} (P : S → Type 0) (m : Backend S → Action S A)
      → Keeps P (m v)
      → Keeps (In P) (backend only >>= λ u. on_backend only (m u))
  pass-Keeps P m h = backend-Holds P _ _ (on_backend-Holds P (m v) (λ _. P) h)

  -- What a change of the counters keeps.
  abbrev pub Allows : (Counters → Counters) → (S → Type 0) → (S → Type 0) → Type 0
  Allows f P Q = (s : S) → P s → Q (v.with_counters (f (v.counters s)) s)

  pub count-Holds :
      (t : Trend) (P Q : S → Type 0)
      → Allows (Pcounter.add t) P Q
      → Holds (In P) (count only v t) (λ _. In Q)
  unfolding count
  count-Holds t P Q h = record { at = λ p k. h p.state k }

  pub do_progress-Holds :
      (P : S → Type 0) (d : Ptr)
      → Allows (Pcounter.add Trend.progress) P P
      → Keeps P (v.do_progress d)
      → Keeps (In P) (do_progress only d)
  unfolding do_progress
  do_progress-Holds P d a h = backend-Holds P _ _ (
      Holds-bind _ (λ _. In P) _ _ (count-Holds Trend.progress P P a)
        λ _. on_backend-Holds P (v.do_progress d) (λ _. P) h)

  pub poll_cq-Holds :
      (P : S → Type 0) (c : Ptr)
      → Allows (Pcounter.add Trend.comp_poll) P P
      → Allows (Pcounter.add Trend.comp_consume) P P
      → Keeps P (v.poll_cq c)
      → Keeps (In P) (poll_cq only c)
  unfolding poll_cq consumed
  poll_cq-Holds P c a b h = backend-Holds P _ _ (
      Holds-bind _ (λ _. In P) _ _ (count-Holds Trend.comp_poll P P a)
        λ _.
          Holds-bind _ (λ _. In P) _ _ (on_backend-Holds P (v.poll_cq c) (λ _. P) h)
            λ ret. Holds-bind _ (λ _. In P) _ _ (consumed-Keeps ret) λ _. Keeps-pure (In P) ret)
    where
      consumed-Keeps : (o : Option RequestT) → Keeps (In P) (consumed only v o)
      consumed-Keeps none = Keeps-pure (In P) tt
      consumed-Keeps (some r) = count-Holds Trend.comp_consume P P b

  pub timed-Holds :
      (t : Timer) (started retry : Trend) (call : Backend S → Action S Bool) (P : S → Type 0)
      (After : Bool → S → Type 0)
      → Allows (Pcounter.start t) P P
      → Holds P (call v) After
      → ((b : Bool) → Allows (Pcounter.finish t) (After b) (After b))
      → Allows (Pcounter.add started) (After true) P
      → Allows (Pcounter.add retry) (After false) P
      → Keeps (In P) (timed only t started retry call)
  unfolding timed start end
  timed-Holds t started retry call P After opens h closes posted refused = backend-Holds P _ _ (
      Holds-bind (start only v t) (λ _. In P) _ _ (record { at = λ p k. opens p.state k })
        λ _.
          Holds-bind _ (λ b. In (After b)) _ _ (on_backend-Holds P (call v) After h)
            λ b.
              Holds-bind (end only v t) (λ _. In (After b)) _ _
                (record { at = λ p k. closes b p.state k })
                λ _. Holds-bind _ (λ _. In P) _ _ (counted b) λ _. Keeps-pure (In P) b)
    where
      counted :
          (b : Bool)
          → Holds (In (After b)) (count only v (if b then started else retry)) (λ _. In P)
      counted true = count-Holds started (After true) P posted
      counted false = count-Holds retry (After false) P refused
