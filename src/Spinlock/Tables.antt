-- ===== src/Spinlock/Tables.antt =====
-- The two tables of lock functions of src/util/spinlock.cpp, over locks of pthread that behave as
-- documented.
use lcw.Base.{
  ℕ, ℤ, pos, negsuc, zero, suc, ◌≡◌, ◌≢◌, refl, ap, Bool, true, false, Option, none, some, ok,
  blocked,
}
use lcw.Spinlock.{pthread_spinlock, pthread_mutex}
use lcw.Spinlock.Pthread.{LockApi, PthreadApi, Ops, ops_of, wait, is_zero}

-- Documented behaviour of one kind of pthread lock, `held` telling whether an initialized one is held.
-- Nothing is said of unlocking a lock that is not held.
pub record IsLock {W : Type 0} (k : LockApi W) (held : ℕ → W → Option Bool) : Type 0 where
  pub starts :
      (w : W) → held (k.new_lock w).0 (k.init (k.new_lock w).0 (k.new_lock w).1) ≡ some false
  pub takes :
      (l : ℕ) (w : W)
      → held l w ≡ some false
      → (w' : W) × (k.lock l w ≡ some w') × (held l w' ≡ some true)
  pub waits : (l : ℕ) (w : W) → held l w ≡ some true → k.lock l w ≡ none
  pub tries :
      (l : ℕ) (w : W)
      → held l w ≡ some false
      → ((k.trylock l w).0 ≡ pos 0) × (held l (k.trylock l w).1 ≡ some true)
  pub fails :
      (l : ℕ) (w : W)
      → held l w ≡ some true
      → ((k.trylock l w).0 ≢ pos 0) × (held l (k.trylock l w).1 ≡ some true)
  pub lets_go : (l : ℕ) (w : W) → held l w ≡ some true → held l (k.unlock l w) ≡ some false

-- The same behaviour of a table, whichever functions it has.
pub record IsFlag {W : Type 0} (ops : Ops W) (held : ℕ → W → Option Bool) : Type 0 where
  pub alloc :
      (w : W) → (l : ℕ) × (w' : W) × (ops.alloc w ≡ ok (some l, w')) × (held l w' ≡ some false)
  pub free : (l : ℕ) (w : W) → (w' : W) × (ops.free (some l) w ≡ ok (tt, w'))
  pub takes :
      (l : ℕ) (w : W)
      → held l w ≡ some false
      → (w' : W) × (ops.lock (some l) w ≡ ok (tt, w')) × (held l w' ≡ some true)
  pub waits : (l : ℕ) (w : W) → held l w ≡ some true → ops.lock (some l) w ≡ blocked
  pub tries :
      (l : ℕ) (w : W)
      → held l w ≡ some false
      → (w' : W) × (ops.trylock (some l) w ≡ ok (true, w')) × (held l w' ≡ some true)
  pub fails :
      (l : ℕ) (w : W)
      → held l w ≡ some true
      → (w' : W) × (ops.trylock (some l) w ≡ ok (false, w')) × (held l w' ≡ some true)
  pub lets_go :
      (l : ℕ) (w : W)
      → held l w ≡ some true
      → (w' : W) × (ops.unlock (some l) w ≡ ok (tt, w')) × (held l w' ≡ some false)

is_zero_ne : (n : ℤ) → n ≢ pos 0 → is_zero n ≡ false
unfolding is_zero
is_zero_ne (pos zero) h = absurd (h refl)
is_zero_ne (pos (suc n)) h = refl
is_zero_ne (negsuc n) h = refl

module _ {W : Type 0} (api : PthreadApi W) (customs : ℕ → Ops W) where
  pub pthread_spinlock-IsFlag :
      (held : ℕ → W → Option Bool)
      → IsLock api.spin held
      → IsFlag (ops_of api customs pthread_spinlock) held
  unfolding ops_of wait is_zero
  pthread_spinlock-IsFlag held h = record {
    alloc = λ w. (_, _, refl, h.starts w);
    free = λ l w. (_, refl);
    takes = λ l w f. let k = h.takes l w f in (k.0, ap wait k.1, k.2);
    waits = λ l w f. ap wait (h.waits l w f);
    tries = λ l w f.
        let k = h.tries l w f in (_, ap (λ n. ok (is_zero n, (api.spin.trylock l w).1)) k.0, k.1);
    fails = λ l w f.
        let k = h.fails l w f in
        (_, ap (λ b. ok (b, (api.spin.trylock l w).1)) (is_zero_ne _ k.0), k.1);
    lets_go = λ l w f. (_, refl, h.lets_go l w f);
  }

  pub pthread_mutex-IsFlag :
      (held : ℕ → W → Option Bool)
      → IsLock api.mutex held
      → IsFlag (ops_of api customs pthread_mutex) held
  unfolding ops_of wait is_zero
  pthread_mutex-IsFlag held h = record {
    alloc = λ w. (_, _, refl, h.starts w);
    free = λ l w. (_, refl);
    takes = λ l w f. let k = h.takes l w f in (k.0, ap wait k.1, k.2);
    waits = λ l w f. ap wait (h.waits l w f);
    tries = λ l w f.
        let k = h.tries l w f in (_, ap (λ n. ok (is_zero n, (api.mutex.trylock l w).1)) k.0, k.1);
    fails = λ l w f.
        let k = h.fails l w f in
        (_, ap (λ b. ok (b, (api.mutex.trylock l w).1)) (is_zero_ne _ k.0), k.1);
    lets_go = λ l w f. (_, refl, h.lets_go l w f);
  }
