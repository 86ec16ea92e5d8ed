-- ===== src/Base/Effect.antt =====
-- What a call does besides returning: it may end the process, or wait on a lock for ever.
use mathlib.Core.Path.{◌≡◌, subst}
use mathlib.Core.Bool.{Bool, true, false}
use mathlib.Core.Option.{Option, none, some}

pub data Fault : Type 0 where
  assertion : Fault  -- LCW_Assert, MPI_SAFECALL, LCI_SAFECALL, abort
  bad_pointer : Fault  -- a null or dangling pointer is followed
  uninitialized : Fault  -- an indeterminate value is read
  exception : Fault  -- std::runtime_error
  exited : Fault  -- exit

pub data Outcome {ℓ} (A : Type ℓ) : Type ℓ where
  ok : A → Outcome A
  fault : Fault → Outcome A
  blocked : Outcome A

-- An action on the state `S`.
abbrev pub Action : Type 0 → Type 0 → Type 0
Action S A = S → Outcome (A × S)

abbrev pub pure : {S A : Type 0} → A → Action S A
pure a s = ok (a, s)

abbrev pub fail : {S A : Type 0} → Fault → Action S A
fail e s = fault e

abbrev pub block : {S A : Type 0} → Action S A
block s = blocked

abbrev pub then_with : {S A B : Type 0} → Outcome (A × S) → (A → Action S B) → Outcome (B × S)
then_with (ok (a, s)) f = f a s
then_with (fault e) f = fault e
then_with blocked f = blocked

infixl 5 ◌>>=◌ ◌>>◌
abbrev pub ◌>>=◌ : {S A B : Type 0} → Action S A → (A → Action S B) → Action S B
◌>>=◌ m f s = then_with (m s) f

abbrev pub ◌>>◌ : {S B : Type 0} → Action S (Unit {0}) → Action S B → Action S B
m >> k = m >>= λ _. k

abbrev pub gets : {S A : Type 0} → (S → A) → Action S A
gets f s = ok (f s, s)

abbrev pub modify : {S : Type 0} → (S → S) → Action S (Unit {0})
modify f s = ok (tt, f s)

-- LCW_Assert.
abbrev pub assert : {S : Type 0} → Bool → Action S (Unit {0})
assert true = pure tt
assert false = fail assertion

abbrev pub or_fault : {S A : Type 0} → Option A → Fault → Action S A
or_fault (some a) e = pure a
or_fault none e = fail e

abbrev pub when : {S : Type 0} → Bool → Action S (Unit {0}) → Action S (Unit {0})
when true m = m
when false m = pure tt

-- `lock` of a spinlock waits while it is held.
abbrev pub await : {S : Type 0} → Bool → Action S (Unit {0})
await true = block
await false = pure tt

-- What holds of a result; nothing is said of a call that ends the process or waits.
abbrev pub Post : {S A : Type 0} → (A → S → Type 0) → Outcome (A × S) → Type 0
Post Q (ok (a, s)) = Q a s
Post Q (fault e) = Unit
Post Q blocked = Unit

-- From a state with `P` the action ends, if it returns, in a result and a state with `Q`.
pub record Holds {S A : Type 0} (P : S → Type 0) (m : Action S A) (Q : A → S → Type 0)
    : Type 0 where
  pub at : (s : S) → P s → Post Q (m s)

module _ {S A : Type 0} where
  pub Holds-pure :
      {P : S → Type 0} (a : A) {Q : A → S → Type 0} → ((s : S) → P s → Q a s) → Holds P (pure a) Q
  Holds-pure a h = record { at = h }

  pub Holds-fail : {P : S → Type 0} (e : Fault) (Q : A → S → Type 0) → Holds P (fail e) Q
  Holds-fail e Q = record { at = λ s h. tt }

module _ {S A B : Type 0} where
  Post-bind :
      {R : A → S → Type 0} (f : A → Action S B) (Q : B → S → Type 0) (o : Outcome (A × S))
      → Post R o
      → ((a : A) → Holds (R a) (f a) Q)
      → Post Q (then_with o f)
  Post-bind f Q (ok (a, s)) h k = (k a).at s h
  Post-bind f Q (fault e) h k = tt
  Post-bind f Q blocked h k = tt

  pub Holds-bind :
      {P : S → Type 0} (m : Action S A) (R : A → S → Type 0) (f : A → Action S B)
      (Q : B → S → Type 0)
      → Holds P m R
      → ((a : A) → Holds (R a) (f a) Q)
      → Holds P (m >>= f) Q
  Holds-bind m R f Q hm hf = record { at = λ s h. Post-bind f Q (m s) (hm.at s h) hf }

-- The rule of consequence.
pub Holds-map :
    {S A : Type 0} {P P' : S → Type 0} {m : Action S A} {Q Q' : A → S → Type 0}
    → ((s : S) → P' s → P s)
    → ((a : A) (s : S) → Q a s → Q' a s)
    → Holds P m Q
    → Holds P' m Q'
Holds-map {S} {A} {m = m} {Q = Q} {Q' = Q'} pre post h = record {
  at = λ s p. go (m s) (h.at s (pre s p));
}
  where
    go : (o : Outcome (A × S)) → Post Q o → Post Q' o
    go (ok (a, s)) q = post a s q
    go (fault e) q = tt
    go blocked q = tt

-- The action keeps `P`.
abbrev pub Keeps : {S A : Type 0} → (S → Type 0) → Action S A → Type 0
Keeps P m = Holds P m (λ _ s. P s)

pub Keeps-pure : {S A : Type 0} (P : S → Type 0) (a : A) → Keeps P (pure a)
Keeps-pure P a = record { at = λ s h. h }

pub Keeps-fail : {S A : Type 0} (P : S → Type 0) (e : Fault) → Keeps {A = A} P (fail e)
Keeps-fail P e = record { at = λ s h. tt }

pub Keeps-bind :
    {S A B : Type 0} (P : S → Type 0) (m : Action S A) (f : A → Action S B)
    → Keeps P m
    → ((a : A) → Keeps P (f a))
    → Keeps P (m >>= f)
Keeps-bind P m f hm hf = Holds-bind m (λ _ s. P s) f (λ _ s. P s) hm hf

pub Keeps-when :
    {S : Type 0} (P : S → Type 0) (b : Bool) (m : Action S (Unit {0}))
    → Keeps P m
    → Keeps P (when b m)
Keeps-when P true m h = h
Keeps-when P false m h = record { at = λ s p. p }

pub Keeps-assert : {S : Type 0} (P : S → Type 0) (b : Bool) → Keeps P (assert b)
Keeps-assert P true = record { at = λ s p. p }
Keeps-assert P false = record { at = λ s p. tt }

pub Keeps-await : {S : Type 0} (P : S → Type 0) (b : Bool) → Keeps P (await b)
Keeps-await P true = record { at = λ s p. tt }
Keeps-await P false = record { at = λ s p. p }

pub Keeps-or_fault :
    {S A : Type 0} (P : S → Type 0) (o : Option A) (e : Fault) → Keeps P (or_fault o e)
Keeps-or_fault P none e = record { at = λ s p. tt }
Keeps-or_fault P (some a) e = record { at = λ s p. p }

-- The outcome of an action on a part of the state, put back into the whole.
abbrev pub put_back : {S T A : Type 0} → (T → S → S) → S → Outcome (A × T) → Outcome (A × S)
put_back back s (ok (a, t)) = ok (a, back t s)
put_back back s (fault e) = fault e
put_back back s blocked = blocked

abbrev pub zoom : {S T A : Type 0} → (S → T) → (T → S → S) → Action T A → Action S A
zoom part back m s = put_back back s (m (part s))

-- A statement about every result, at the result that a call returns.
pub Holds-at :
    {S A : Type 0} {P : S → Type 0} {m : Action S A} {Q : A → S → Type 0}
    → Holds P m Q
    → (s : S) {a : A} {s' : S} → m s ≡ ok (a, s')
    → P s
    → Q a s'
Holds-at {Q = Q} h s e p = subst (Post Q) e (h.at s p)
