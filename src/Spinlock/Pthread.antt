-- ===== src/Spinlock/Pthread.antt =====
-- src/util/spinlock.cpp and spinlock.hpp: the library's two tables of lock functions, and the class
-- spinlock_t, which calls through the table in use. pthread is a parameter.
use lcw.Base.{
  ℕ, ℤ, pos, negsuc, zero, suc, Bool, true, false, Option, none, some, Outcome, ok, blocked, Action,
  pure, or_fault, modify, zoom, bad_pointer, ◌>>=◌, ◌>>◌,
}
use lcw.Api.{Ptr}
use lcw.Spinlock.{SpinlockOp, custom, pthread_spinlock, pthread_mutex, Spinlock}

-- One kind of lock of pthread: `new` and `delete` of its type, and its functions. A lock that waits
-- for ever gives `none`; the results of init, destroy, lock and unlock are not looked at.
pub record LockApi (W : Type 0) : Type 0 where
  pub new_lock : W → ℕ × W
  pub init : ℕ → W → W
  pub destroy : ℕ → W → W
  pub delete_lock : ℕ → W → W
  pub lock : ℕ → W → Option W
  pub trylock : ℕ → W → ℤ × W
  pub unlock : ℕ → W → W

-- pthread_spin_* with PTHREAD_PROCESS_PRIVATE, and pthread_mutex_* with default attributes.
pub record PthreadApi (W : Type 0) : Type 0 where
  pub spin : LockApi W
  pub mutex : LockApi W

-- The function pointers of custom_spinlock_op_t.
pub record Ops (W : Type 0) : Type 0 where
  pub alloc : Action W Ptr
  pub free : Ptr → Action W (Unit {0})
  pub lock : Ptr → Action W (Unit {0})
  pub trylock : Ptr → Action W Bool
  pub unlock : Ptr → Action W (Unit {0})

unfoldable pub is_zero : ℤ → Bool
is_zero (pos zero) = true
is_zero (pos (suc n)) = false
is_zero (negsuc n) = false

unfoldable pub wait : {W : Type 0} → Option W → Outcome (Unit {0} × W)
wait none = blocked
wait (some w) = ok (tt, w)

module _ {W : Type 0} (api : PthreadApi W) where
  spinlock_pthread_spinlock_alloc : Action W Ptr
  spinlock_pthread_spinlock_alloc = do
    l ← (λ w. ok (api.spin.new_lock w))
    modify (api.spin.init l)
    pure (some l)

  spinlock_pthread_spinlock_free : Ptr → Action W (Unit {0})
  spinlock_pthread_spinlock_free p = do
    l ← or_fault p bad_pointer
    modify (api.spin.destroy l)
    modify (api.spin.delete_lock l)

  spinlock_pthread_spinlock_lock : Ptr → Action W (Unit {0})
  unfolding wait
  spinlock_pthread_spinlock_lock p = do l ← or_fault p bad_pointer; λ w. wait (api.spin.lock l w)

  spinlock_pthread_spinlock_trylock : Ptr → Action W Bool
  unfolding is_zero
  spinlock_pthread_spinlock_trylock p = do
    l ← or_fault p bad_pointer
    r ← (λ w. ok (api.spin.trylock l w))
    pure (is_zero r)

  spinlock_pthread_spinlock_unlock : Ptr → Action W (Unit {0})
  spinlock_pthread_spinlock_unlock p = do l ← or_fault p bad_pointer; modify (api.spin.unlock l)

  spinlock_pthread_mutex_alloc : Action W Ptr
  spinlock_pthread_mutex_alloc = do
    l ← (λ w. ok (api.mutex.new_lock w))
    modify (api.mutex.init l)
    pure (some l)

  spinlock_pthread_mutex_free : Ptr → Action W (Unit {0})
  spinlock_pthread_mutex_free p = do
    l ← or_fault p bad_pointer
    modify (api.mutex.destroy l)
    modify (api.mutex.delete_lock l)

  spinlock_pthread_mutex_lock : Ptr → Action W (Unit {0})
  unfolding wait
  spinlock_pthread_mutex_lock p = do l ← or_fault p bad_pointer; λ w. wait (api.mutex.lock l w)

  spinlock_pthread_mutex_trylock : Ptr → Action W Bool
  unfolding is_zero
  spinlock_pthread_mutex_trylock p = do
    l ← or_fault p bad_pointer
    r ← (λ w. ok (api.mutex.trylock l w))
    pure (is_zero r)

  spinlock_pthread_mutex_unlock : Ptr → Action W (Unit {0})
  spinlock_pthread_mutex_unlock p = do l ← or_fault p bad_pointer; modify (api.mutex.unlock l)

  -- The table that an operation of the model's `SpinlockOp` stands for.
  unfoldable pub ops_of : (ℕ → Ops W) → SpinlockOp → Ops W
  unfolding spinlock_pthread_spinlock_alloc spinlock_pthread_spinlock_free
      spinlock_pthread_spinlock_lock spinlock_pthread_spinlock_trylock
      spinlock_pthread_spinlock_unlock spinlock_pthread_mutex_alloc spinlock_pthread_mutex_free
      spinlock_pthread_mutex_lock spinlock_pthread_mutex_trylock spinlock_pthread_mutex_unlock
  ops_of customs (custom n) = customs n
  ops_of customs pthread_spinlock = record {
    alloc = spinlock_pthread_spinlock_alloc;
    free = spinlock_pthread_spinlock_free;
    lock = spinlock_pthread_spinlock_lock;
    trylock = spinlock_pthread_spinlock_trylock;
    unlock = spinlock_pthread_spinlock_unlock;
  }
  ops_of customs pthread_mutex = record {
    alloc = spinlock_pthread_mutex_alloc;
    free = spinlock_pthread_mutex_free;
    lock = spinlock_pthread_mutex_lock;
    trylock = spinlock_pthread_mutex_trylock;
    unlock = spinlock_pthread_mutex_unlock;
  }

-- The global `spinlock_op` beside the world.
pub record Locks (W : Type 0) : Type 0 where
  pub spinlock : Spinlock
  pub world : W

module _ {W : Type 0} (api : PthreadApi W) (customs : ℕ → Ops W) where
  -- The table in use; a call through the one that nobody has set is a call of a null pointer.
  current : Action (Locks W) (Ops W)
  unfolding ops_of
  current s =
      or_fault (elim s.spinlock.spinlock_op [ none ↦ none | some o ↦ some (ops_of api customs o) ])
        bad_pointer s

  abbrev on_world : {A : Type 0} → Action W A → Action (Locks W) A
  on_world = zoom (λ s. s.world) (λ w s. record s { world = w })

  -- The constructor, the destructor and the members of spinlock_t.
  unfoldable pub construct : Action (Locks W) Ptr
  unfolding current
  construct = do ops ← current; on_world ops.alloc

  unfoldable pub destruct : Ptr → Action (Locks W) (Unit {0})
  unfolding current
  destruct l = do ops ← current; on_world (ops.free l)

  unfoldable pub try_lock : Ptr → Action (Locks W) Bool
  unfolding current
  try_lock l = do ops ← current; on_world (ops.trylock l)

  unfoldable pub lock : Ptr → Action (Locks W) (Unit {0})
  unfolding current
  lock l = do ops ← current; on_world (ops.lock l)

  unfoldable pub unlock : Ptr → Action (Locks W) (Unit {0})
  unfolding current
  unlock l = do ops ← current; on_world (ops.unlock l)
