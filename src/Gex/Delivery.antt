-- ===== src/Gex/Delivery.antt =====
-- A put of the GASNet-EX backend names its device by an index; the handler looks it up in
-- g_devices of its own process, where the devices are made in the same order.
use lcw.Base.{
  ℕ, ℤ, zero, suc, ◌+◌, ◌-◌, ◌<◌, ◌≡◌, refl, sym, ap, ◌∙◌, ◌⊎◌, inl, inr, Option, none, some, List,
  [], ◌∷◌, ◌++◌, arith, length, length-append, length-set, get_elem?, set, deref,
  get_elem?-append_length, get_elem?-append_some, lt-length_of_some, Option-cases, ok, Action, pure,
  assert, bad_pointer, gets, modify, ◌>>=◌, ◌>>◌, Holds-at, Keeps, Keeps-bind, Keeps-pure,
  Keeps-or_fault,
}
use lcw.Api.{Ptr}
use lcw.Pcounter.{Trend}
use lcw.Comp.{Host, count}
use lcw.Comp
use lcw.Gex.{
  GexApi, DeviceT, State, in_runtime, in_world, device_at, allocated, alloc_device, free_device,
  delete_device, gex_reqhandler, signal_request,
}

-- Every device ever made stands in g_devices at its place, and a live one carries that place as id.
pub record IsIndexed {W : Type 0} (s : State W) : Type 0 where
  pub same : length s.g_devices ≡ length s.devices
  pub place : (n : ℕ) → n < length s.g_devices → get_elem? s.g_devices n ≡ some n
  pub id : (n : ℕ) (d : DeviceT) → get_elem? s.devices n ≡ some (some d) → d.id ≡ n

module _ {A : Type 0} where
  snoc-cases : (xs : List A) (n : ℕ) → n < length xs + 1 → (n < length xs) ⊎ (n ≡ length xs)
  snoc-cases xs n h = ground arith

  get_elem?-append_lt :
      (xs ys : List A) (n : ℕ) → n < length xs → get_elem? (xs ++ ys) n ≡ get_elem? xs n
  get_elem?-append_lt [] ys n h = absurd (omega (arith, h))
  get_elem?-append_lt (x ∷ xs) ys zero h = refl
  get_elem?-append_lt (x ∷ xs) ys (suc n) h = get_elem?-append_lt xs ys n (omega arith)

  -- What stands after a deletion stood there before.
  get_elem?-set-none :
      (xs : List (Option A)) (p n : ℕ) (a : A)
      → get_elem? (set xs p none) n ≡ some (some a)
      → get_elem? xs n ≡ some (some a)
  get_elem?-set-none [] p n a h = h
  get_elem?-set-none (x ∷ xs) zero zero a h = absurd (cc)
  get_elem?-set-none (x ∷ xs) zero (suc n) a h = h
  get_elem?-set-none (x ∷ xs) (suc p) zero a h = h
  get_elem?-set-none (x ∷ xs) (suc p) (suc n) a h = get_elem?-set-none xs p n a h

abbrev id_of : Option (Option DeviceT) → ℕ
id_of none = 0
id_of (some none) = 0
id_of (some (some d)) = d.id

pub data Call : Type 0 where
  allocs_device : ℤ → Ptr → Call
  frees_device : Ptr → Call

module _ {W : Type 0} (host : Host W) (api : GexApi W) where
  abbrev new_id : State W → ℕ
  new_id s = length (s.g_devices ++ length s.devices ∷ []) - 1

  abbrev added : Ptr → State W → State W
  added c s = record s {
    g_devices = s.g_devices ++ length s.devices ∷ [];
    devices = s.devices ++ some (record { id = new_id s; comp = c }) ∷ [];
  }

  new_id_eq : (s : State W) → IsIndexed s → new_id s ≡ length s.devices
  new_id_eq s h = omega (arith, length-append s.g_devices (length s.devices ∷ []), h.same)

  added-IsIndexed : (c : Ptr) (s : State W) → IsIndexed s → IsIndexed (added c s)
  added-IsIndexed c s h = record {
    same = omega (
      arith,
      length-append s.g_devices (length s.devices ∷ []),
      length-append s.devices (fresh ∷ []),
      h.same,
    );
    place = λ n lt.
        elim (snoc-cases s.g_devices n
          (omega (arith, lt, length-append s.g_devices (length s.devices ∷ [])))) [
            | inl k ↦ get_elem?-append_some s.g_devices _ n (h.place n k)
            | inr e ↦
                ap (get_elem? (added c s).g_devices) e
                ∙ get_elem?-append_length s.g_devices (length s.devices)
                ∙ ap some (sym h.same ∙ sym e)
          ];
    id = λ n d at.
        elim (snoc-cases s.devices n (
          omega (
            arith,
            lt-length_of_some (added c s).devices n at,
            length-append s.devices (fresh ∷ []),
          ))) [
            | inl k ↦ h.id n d (sym (get_elem?-append_lt s.devices _ n k) ∙ at)
            | inr e ↦
                new_is d (
                  sym (get_elem?-append_length s.devices fresh)
                  ∙ ap (get_elem? (added c s).devices) (sym e)
                  ∙ at)
                ∙ new_id_eq s h
                ∙ sym e
          ];
  }
    where
      fresh : Option DeviceT
      fresh = some (record { id = new_id s; comp = c })

      new_is : (d : DeviceT) → some fresh ≡ some (some d) → d.id ≡ new_id s
      new_is d e = sym (ap id_of e)

  alloc_device-Keeps : (n : ℤ) (c : Ptr) → Keeps IsIndexed (alloc_device host api n c)
  unfolding alloc_device
  alloc_device-Keeps n c = record { at = λ s h. added-IsIndexed c s h }

  device_at-Keeps : (p : ℕ) → Keeps {S = State W} IsIndexed (device_at (some p))
  unfolding device_at
  device_at-Keeps p = record {
    at = λ s h. (Keeps-or_fault IsIndexed (deref (get_elem? s.devices p)) bad_pointer).at s h;
  }

  deleted-IsIndexed : (p : ℕ) (s : State W) → IsIndexed s → IsIndexed (delete_device host api p s)
  unfolding delete_device
  deleted-IsIndexed p s h = record {
    same = h.same ∙ sym (length-set s.devices p none);
    place = h.place;
    id = λ n d at. h.id n d (get_elem?-set-none s.devices p n d at);
  }

  free_device-Keeps : (p : Ptr) → Keeps IsIndexed (free_device host api p)
  unfolding free_device
  free_device-Keeps none = Keeps-pure IsIndexed tt
  free_device-Keeps (some p) =
      Keeps-bind IsIndexed _ _ (device_at-Keeps p)
        λ d. record { at = λ s h. deleted-IsIndexed p s h }

  unfoldable pub step : Call → Action (State W) (Unit {0})
  step (allocs_device n c) = alloc_device host api n c >>= λ _. pure tt
  step (frees_device p) = free_device host api p

  unfoldable pub run : List Call → Action (State W) (Unit {0})
  unfolding step
  run [] = pure tt
  run (c ∷ cs) = do step c; run cs

  step-Keeps : (c : Call) → Keeps IsIndexed (step c)
  unfolding step
  step-Keeps (allocs_device n c) =
      Keeps-bind IsIndexed _ _ (alloc_device-Keeps n c) λ _. Keeps-pure IsIndexed tt
  step-Keeps (frees_device p) = free_device-Keeps p

  run-Keeps : (cs : List Call) → Keeps IsIndexed (run cs)
  unfolding run
  run-Keeps [] = Keeps-pure IsIndexed tt
  run-Keeps (c ∷ cs) = Keeps-bind IsIndexed _ _ (step-Keeps c) λ _. run-Keeps cs

  -- What the arrival of a put at the device `p` with the completion `comp` should do: copy the
  -- data into a buffer of the allocator in use, count it, and signal `comp` with that buffer.
  pub arrives : ℕ → Ptr → ℤ → Ptr → ℕ → Action (State W) (Unit {0})
  arrives p comp rank am_buf nbytes = do
    a ← gets (λ s. s.g_allocator_copy)
    buffer ← in_world (λ w. ok (host.allocate a nbytes w))
    assert (allocated buffer)
    in_world (modify (host.memcpy buffer am_buf nbytes))
    modify (λ s. record s { runtime = count Trend.put_signal s.runtime })
    in_runtime (Comp.signal_comp host comp (signal_request host api p rank buffer nbytes))

  handler-arrives :
      (rank : ℤ) (am_buf : Ptr) (nbytes k p : ℕ) (d : DeviceT) (s : State W)
      → get_elem? s.g_devices k ≡ some p
      → get_elem? s.devices p ≡ some (some d)
      → gex_reqhandler host api rank am_buf nbytes k s ≡ arrives p d.comp rank am_buf nbytes s
  unfolding gex_reqhandler arrives device_at
  handler-arrives rank am_buf nbytes k p d s slot at =
      elim (Option-cases (host.allocate s.g_allocator_copy nbytes s.world).0) [
        | inl e ↦ rw (e) refl
        | inr (b, e) ↦ rw (e, slot, at) refl
      ]

  -- After any history of device allocations and releases that returns, from a state where devices
  -- and indices agree, the handler that receives the index of a live device, which is what `put`
  -- sends, does what the arrival at that very device should do: a release shifts no other device.
  pub run-arrives :
      (cs : List Call) (s s' : State W)
      → run cs s ≡ ok (tt, s')
      → IsIndexed s
      → (p : ℕ) (d : DeviceT) → get_elem? s'.devices p ≡ some (some d)
      → (rank : ℤ) (am_buf : Ptr) (nbytes : ℕ)
      → gex_reqhandler host api rank am_buf nbytes d.id s' ≡ arrives p d.comp rank am_buf nbytes s'
  run-arrives cs s s' e h p d at rank am_buf nbytes =
      handler-arrives rank am_buf nbytes d.id p d s' slot at
    where
      after : IsIndexed s'
      after = Holds-at (run-Keeps cs) s e h

      slot : get_elem? s'.g_devices d.id ≡ some p
      slot =
          ap (get_elem? s'.g_devices) (after.id p d at)
          ∙ after.place p (omega (arith, after.same, lt-length_of_some s'.devices p at))
