-- ===== src/Pingpong/CppBarrier.antt =====
-- cpp_barrier of examples/comm_exp.hpp: threads that call wait once each, in any order, with wake-ups in
-- between, notified or spurious.
use lcw.Base.{
  Bool, map, ℕ, ◌+◌, ◌-◌, ◌%◌, ◌^◌, ◌<◌, ◌≡◌, refl, List, [], ◌∷◌, Option, none, some, true, false,
  get_elem?, set, total, total-set, ◌==◌, if◌then◌else◌, arith, ◌∙◌, ◌⊎◌, inl, inr, Bool-cases,
}

-- Before wait, in _cv.wait, in _cv.wait after a notify_all, and after wait.
pub data Place : Type 0 where
  outside asleep notified left : Place

-- `_count`, and where the threads are.
pub record Barrier : Type 0 where
  pub count : ℕ
  pub threads : List Place

-- What a thread does while it has the mutex: it enters wait, or it wakes up, notified or not, and looks.
pub data Event : Type 0 where
  arrives wakes : ℕ → Event

-- --_count, a size_t
abbrev pub pred_size : ℕ → ℕ
pred_size n = (n + 2 ^ 64 - 1) % 2 ^ 64

-- The thread leaves if the count is 0, and sleeps on if not.
abbrev place_at : ℕ → Place
place_at count = if count == 0 then left else asleep

abbrev settle : ℕ → ℕ → List Place → Barrier
settle t count threads = record { count = count; threads = set threads t (place_at count) }

-- _cv.notify_all
abbrev notify : Place → Place
notify outside = outside
notify asleep = notified
notify notified = notified
notify left = left

abbrev notify_all : Bool → Barrier → Barrier
notify_all true s = record s { threads = map notify s.threads }
notify_all false s = s

arrive : ℕ → Option Place → Barrier → Barrier
arrive t (some outside) s =
    let count = pred_size s.count in notify_all (count == 0) (settle t count s.threads)
arrive t (some asleep) s = s
arrive t (some notified) s = s
arrive t (some left) s = s
arrive t none s = s

wake : ℕ → Option Place → Barrier → Barrier
wake t (some asleep) s = settle t s.count s.threads
wake t (some notified) s = settle t s.count s.threads
wake t (some outside) s = s
wake t (some left) s = s
wake t none s = s

unfoldable pub step : Event → Barrier → Barrier
unfolding arrive wake
step (arrives t) s = arrive t (get_elem? s.threads t) s
step (wakes t) s = wake t (get_elem? s.threads t) s

unfoldable pub run : List Event → Barrier → Barrier
unfolding step
run [] s = s
run (e ∷ es) s = run es (step e s)

abbrev pub is_outside : Place → ℕ
is_outside outside = 1
is_outside asleep = 0
is_outside notified = 0
is_outside left = 0

abbrev pub is_left : Place → ℕ
is_left outside = 0
is_left asleep = 0
is_left notified = 0
is_left left = 1

-- The count is the number of threads still to come, and nobody has left before it is 0.
pub record IsFair (s : Barrier) : Type 0 where
  pub count : s.count ≡ total is_outside s.threads
  pub bound : s.count < 2 ^ 64
  pub gate : (total is_left s.threads ≡ 0) ⊎ (s.count ≡ 0)

is_outside_place : (k : ℕ) → is_outside (place_at k) ≡ 0
is_outside_place k = ground arith

is_left_place : (k : ℕ) → (k == 0) ≡ false → is_left (place_at k) ≡ 0
is_left_place k h = ground arith

-- A thread that has not left takes its new place.
settle-IsFair :
    (t k : ℕ) (p : Place) (s : Barrier)
    → get_elem? s.threads t ≡ some p
    → is_left p ≡ 0
    → k + is_outside p ≡ s.count
    → IsFair s
    → IsFair (settle t k s.threads)
settle-IsFair t k p s e l q h = record {
  count =
      omega
        (arith, total-set is_outside s.threads t (place_at k) e, is_outside_place k, q, h.count);
  bound = omega (arith, q, h.bound);
  gate = gate (Bool-cases (k == 0)) h.gate;
}
  where
    gate :
        ((k == 0) ≡ true) ⊎ ((k == 0) ≡ false)
        → (total is_left s.threads ≡ 0) ⊎ (s.count ≡ 0)
        → (total is_left (set s.threads t (place_at k)) ≡ 0) ⊎ (k ≡ 0)
    gate (inl z) g = inr (ground arith)
    gate (inr z) (inr g) = inr (omega (arith, q, g))
    gate (inr z) (inl g) =
        inl (omega (arith, total-set is_left s.threads t (place_at k) e, is_left_place k z, l, g))

notify-total :
    (w : Place → ℕ) (ps : List Place)
    → ((p : Place) → w (notify p) ≡ w p)
    → total w (map notify ps) ≡ total w ps
notify-total w [] h = refl
notify-total w (p ∷ ps) h = omega (arith, h p, notify-total w ps h)

is_outside-notify : (p : Place) → is_outside (notify p) ≡ is_outside p
is_outside-notify outside = refl
is_outside-notify asleep = refl
is_outside-notify notified = refl
is_outside-notify left = refl

is_left-notify : (p : Place) → is_left (notify p) ≡ is_left p
is_left-notify outside = refl
is_left-notify asleep = refl
is_left-notify notified = refl
is_left-notify left = refl

notify_all-IsFair : (b : Bool) (s : Barrier) → IsFair s → IsFair (notify_all b s)
notify_all-IsFair true s h = record {
  count = omega (arith, h.count, notify-total is_outside s.threads is_outside-notify);
  bound = h.bound;
  gate = rw (notify-total is_left s.threads is_left-notify) h.gate;
}
notify_all-IsFair false s h = h

arrive-IsFair :
    (t : ℕ) (p : Option Place) (s : Barrier)
    → get_elem? s.threads t ≡ p
    → IsFair s
    → IsFair (arrive t p s)
unfolding arrive
arrive-IsFair t (some outside) s e h =
    let c = total-set is_outside s.threads t asleep e in
    notify_all-IsFair (pred_size s.count == 0) _
      (settle-IsFair t (pred_size s.count) outside s e refl (omega (arith, c, h.count, h.bound)) h)
arrive-IsFair t (some asleep) s e h = h
arrive-IsFair t (some notified) s e h = h
arrive-IsFair t (some left) s e h = h
arrive-IsFair t none s e h = h

wake-IsFair :
    (t : ℕ) (p : Option Place) (s : Barrier)
    → get_elem? s.threads t ≡ p
    → IsFair s
    → IsFair (wake t p s)
unfolding wake
wake-IsFair t (some asleep) s e h = settle-IsFair t s.count asleep s e refl (omega arith) h
wake-IsFair t (some notified) s e h = settle-IsFair t s.count notified s e refl (omega arith) h
wake-IsFair t (some outside) s e h = h
wake-IsFair t (some left) s e h = h
wake-IsFair t none s e h = h

step-IsFair : (e : Event) (s : Barrier) → IsFair s → IsFair (step e s)
unfolding step
step-IsFair (arrives t) s h = arrive-IsFair t (get_elem? s.threads t) s refl h
step-IsFair (wakes t) s h = wake-IsFair t (get_elem? s.threads t) s refl h

-- However the threads of a cpp_barrier take the mutex, the count stays the number of those that have not
-- called wait yet, and none has left while there are any, if this holds of the start.
pub run-IsFair : (es : List Event) (s : Barrier) → IsFair s → IsFair (run es s)
unfolding run
run-IsFair [] s h = h
run-IsFair (e ∷ es) s h = run-IsFair es (step e s) (step-IsFair e s h)

abbrev pub is_asleep : Place → ℕ
is_asleep outside = 0
is_asleep asleep = 1
is_asleep notified = 0
is_asleep left = 0

-- When the count is 0, whoever is in _cv.wait has been notified.
abbrev pub IsNotified : Barrier → Type 0
IsNotified s = s.count ≡ 0 → total is_asleep s.threads ≡ 0

none_asleep : (ps : List Place) → total is_asleep (map notify ps) ≡ 0
none_asleep [] = refl
none_asleep (outside ∷ ps) = omega (arith, none_asleep ps)
none_asleep (asleep ∷ ps) = omega (arith, none_asleep ps)
none_asleep (notified ∷ ps) = omega (arith, none_asleep ps)
none_asleep (left ∷ ps) = omega (arith, none_asleep ps)

arrive-IsNotified :
    (t : ℕ) (p : Option Place) (s : Barrier) → IsNotified s → IsNotified (arrive t p s)
unfolding arrive
arrive-IsNotified t (some outside) s h = go (pred_size s.count == 0) refl
  where
    go :
        (b : Bool)
        → (pred_size s.count == 0) ≡ b
        → IsNotified (notify_all b (settle t (pred_size s.count) s.threads))
    go true e z = none_asleep _
    go false e z = absurd (ground arith)
arrive-IsNotified t (some asleep) s h = h
arrive-IsNotified t (some notified) s h = h
arrive-IsNotified t (some left) s h = h
arrive-IsNotified t none s h = h

settle-IsNotified :
    (t : ℕ) (p : Place) (s : Barrier)
    → get_elem? s.threads t ≡ some p
    → IsNotified s
    → IsNotified (settle t s.count s.threads)
settle-IsNotified t p s e h z =
    let q : is_asleep (place_at s.count) ≡ 0 = rw z refl in
    omega (arith, total-set is_asleep s.threads t (place_at s.count) e, h z, q)

wake-IsNotified :
    (t : ℕ) (p : Option Place) (s : Barrier)
    → get_elem? s.threads t ≡ p
    → IsNotified s
    → IsNotified (wake t p s)
unfolding wake
wake-IsNotified t (some asleep) s e h = settle-IsNotified t asleep s e h
wake-IsNotified t (some notified) s e h = settle-IsNotified t notified s e h
wake-IsNotified t (some outside) s e h = h
wake-IsNotified t (some left) s e h = h
wake-IsNotified t none s e h = h

step-IsNotified : (e : Event) (s : Barrier) → IsNotified s → IsNotified (step e s)
unfolding step
step-IsNotified (arrives t) s h = arrive-IsNotified t (get_elem? s.threads t) s h
step-IsNotified (wakes t) s h = wake-IsNotified t (get_elem? s.threads t) s refl h

run-IsNotified : (es : List Event) (s : Barrier) → IsNotified s → IsNotified (run es s)
unfolding run
run-IsNotified [] s h = h
run-IsNotified (e ∷ es) s h = run-IsNotified es (step e s) (step-IsNotified e s h)

-- No wake-up is lost: once all threads have called wait, in whatever order they have taken the mutex,
-- none is asleep that notify_all has not woken up, if at the start the count is that of the threads to
-- come, and nobody sleeps un-notified where it is 0.
pub run-wakes_all :
    (es : List Event) (s : Barrier)
    → IsFair s
    → IsNotified s
    → total is_outside (run es s).threads ≡ 0
    → total is_asleep (run es s).threads ≡ 0
run-wakes_all es s f h z = run-IsNotified es s h ((run-IsFair es s f).count ∙ z)
