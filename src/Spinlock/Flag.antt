-- ===== src/Spinlock/Flag.antt =====
-- What spinlock_t of src/util/spinlock.hpp promises over either of the library's own tables: a lock is
-- a flag that try_lock sets and reports, that lock waits for, and that unlock clears.
use lcw.Base.{
  ℕ, ℤ, ◌≡◌, refl, ap, Bool, true, false, Option, some, List, [], ◌∷◌, Outcome, ok, fault, blocked,
  Action, pure, then_with, ◌>>=◌, ◌>>◌,
}
use lcw.Api.{Ptr}
use lcw.Spinlock.{SpinlockOp, default_op, start_up, at_load}
use lcw.Spinlock.Pthread.{
  PthreadApi, Ops, Locks, ops_of, construct, destruct, try_lock, lock, unlock,
}
use lcw.Spinlock.Tables.{IsLock, IsFlag, pthread_spinlock-IsFlag, pthread_mutex-IsFlag}

pub data LockCall : Type 0 where
  try_locks locks unlocks : LockCall

noted : Bool → Outcome (List Bool) → Outcome (List Bool)
noted b (ok bs) = ok (b ∷ bs)
noted b (fault e) = fault e
noted b blocked = blocked

-- What try_lock reports, call by call, of a flag.
unfoldable pub flag : Bool → List LockCall → Outcome (List Bool)
unfolding noted
flag h [] = ok []
flag false (try_locks ∷ cs) = noted true (flag true cs)
flag true (try_locks ∷ cs) = noted false (flag true cs)
flag false (locks ∷ cs) = flag true cs
flag true (locks ∷ cs) = blocked
flag h (unlocks ∷ cs) = flag false cs

-- Only a lock that is held is unlocked.
unfoldable pub disciplined : Bool → List LockCall → Bool
disciplined h [] = true
disciplined h (try_locks ∷ cs) = disciplined true cs
disciplined false (locks ∷ cs) = disciplined true cs
disciplined true (locks ∷ cs) = true
disciplined true (unlocks ∷ cs) = disciplined false cs
disciplined false (unlocks ∷ cs) = false

module _ {W : Type 0} (api : PthreadApi W) (customs : ℕ → Ops W) where
  calls : Ptr → List LockCall → Action (Locks W) (List Bool)
  calls l [] = pure []
  calls l (try_locks ∷ cs) = do b ← try_lock api customs l; bs ← calls l cs; pure (b ∷ bs)
  calls l (locks ∷ cs) = do lock api customs l; calls l cs
  calls l (unlocks ∷ cs) = do unlock api customs l; calls l cs

  -- A spinlock_t from its construction to its destruction.
  unfoldable pub lifetime : List LockCall → Action (Locks W) (List Bool)
  unfolding calls
  lifetime cs = do l ← construct api customs; bs ← calls l cs; destruct api customs l; pure bs

module _ {W : Type 0} (api : PthreadApi W) (customs : ℕ → Ops W) (op : SpinlockOp)
    (set force : Bool) (held : ℕ → W → Option Bool) (f : IsFlag (ops_of api customs op) held) where
  abbrev over : W → Locks W
  over w = record {
    spinlock = record { setuped = set; spinlock_op = some op; force_default_spinlock = force };
    world = w;
  }

  -- An outcome over the same table, as the flag has it.
  abbrev Shows : Outcome (List Bool × Locks W) → Outcome (List Bool) → Type 0
  Shows o (ok bs) = (w : W) × (o ≡ ok (bs, over w))
  Shows o (fault e) = ⊥
  Shows o blocked = o ≡ blocked

  noted-Shows :
      (b : Bool) (o : Outcome (List Bool × Locks W)) (q : Outcome (List Bool))
      → Shows o q
      → Shows (then_with o λ bs. pure (b ∷ bs)) (noted b q)
  unfolding noted
  noted-Shows b o (ok bs) h = (h.0, ap (λ o. then_with o λ bs. pure (b ∷ bs)) h.1)
  noted-Shows b o (fault e) h = h
  noted-Shows b o blocked h = ap (λ o. then_with o λ bs. pure (b ∷ bs)) h

  calls-Shows :
      (l : ℕ) (h : Bool) (cs : List LockCall) (w : W)
      → held l w ≡ some h
      → disciplined h cs ≡ true
      → Shows (calls api customs (some l) cs (over w)) (flag h cs)
  unfolding calls disciplined flag try_lock lock unlock
  calls-Shows l h [] w e d = (w, refl)
  calls-Shows l false (try_locks ∷ cs) w e d =
      let (w', k, e') = f.tries l w e in rw k (noted-Shows true _ _ (calls-Shows l true cs w' e' d))
  calls-Shows l true (try_locks ∷ cs) w e d =
      let (w', k, e') = f.fails l w e in
      rw k (noted-Shows false _ _ (calls-Shows l true cs w' e' d))
  calls-Shows l false (locks ∷ cs) w e d =
      let (w', k, e') = f.takes l w e in rw k (calls-Shows l true cs w' e' d)
  calls-Shows l true (locks ∷ cs) w e d = rw (f.waits l w e) refl
  calls-Shows l true (unlocks ∷ cs) w e d =
      let (w', k, e') = f.lets_go l w e in rw k (calls-Shows l false cs w' e' d)
  calls-Shows l false (unlocks ∷ cs) w e d = absurd (cc)

  ended-Shows :
      (l : ℕ) (o : Outcome (List Bool × Locks W)) (q : Outcome (List Bool))
      → Shows o q
      → Shows (then_with o λ bs. do destruct api customs (some l); pure bs) q
  unfolding destruct
  ended-Shows l o (ok bs) h = let (w', k) = f.free l h.0 in (w', rw (h.1, k) refl)
  ended-Shows l o (fault e) h = h
  ended-Shows l o blocked h =
      ap (λ o. then_with o λ bs. do destruct api customs (some l); pure bs) h

  lifetime-Shows :
      (cs : List LockCall) (w : W)
      → disciplined false cs ≡ true
      → Shows (lifetime api customs cs (over w)) (flag false cs)
  unfolding lifetime construct
  lifetime-Shows cs w d =
      let (l, w', k, e) = f.alloc w in rw k (ended-Shows l _ _ (calls-Shows l false cs w' e d))

-- What a caller sees of an outcome.
abbrev pub results : {S A : Type 0} → Outcome (A × S) → Outcome A
results (ok (a, s)) = ok a
results (fault e) = fault e
results blocked = blocked

module _ {W : Type 0} (api : PthreadApi W) (customs : ℕ → Ops W)
    (spin_held mutex_held : ℕ → W → Option Bool) (spin : IsLock api.spin spin_held)
    (mutex : IsLock api.mutex mutex_held) where
  held_of : Bool → ℕ → W → Option Bool
  held_of true = mutex_held
  held_of false = spin_held

  default-IsFlag : (apple : Bool) → IsFlag (ops_of api customs (default_op apple)) (held_of apple)
  unfolding default_op held_of
  default-IsFlag true = pthread_mutex-IsFlag api customs mutex_held mutex
  default-IsFlag false = pthread_spinlock-IsFlag api customs spin_held spin

  Shows-results :
      (op : SpinlockOp) (set force : Bool) (held : ℕ → W → Option Bool)
      (f : IsFlag (ops_of api customs op) held) (o : Outcome (List Bool × Locks W))
      (q : Outcome (List Bool))
      → Shows api customs op set force held f o q
      → results o ≡ q
  Shows-results op set force held f o (ok bs) h = ap results h.1
  Shows-results op set force held f o (fault e) h = absurd h
  Shows-results op set force held f o blocked h = ap results h

  -- After an initialization in a process that has not set up lock functions of its own, whatever
  -- LCW_FORCE_PTHREAD_SPINLOCK says, and on either platform: a spinlock_t that is only unlocked while it is
  -- held does what a flag does, call by call, where pthread's locks behave as documented.
  pub lifetime-flag :
      (apple : Bool) (p : Option ℤ) (cs : List LockCall) (w : W)
      → disciplined false cs ≡ true
      → results
          (lifetime api customs cs (record { spinlock = start_up apple p at_load; world = w }))
        ≡ flag false cs
  unfolding start_up
  lifetime-flag apple p cs w d =
      Shows-results (default_op apple) _ _ (held_of apple) (default-IsFlag apple) _ _ (
        lifetime-Shows api customs (default_op apple) false _ (held_of apple) (default-IsFlag apple)
          cs w d)
