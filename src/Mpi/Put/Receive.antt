-- ===== src/Mpi/Put/Receive.antt =====
-- The receive that a device of src/backend/mpi/backend_mpi.cpp keeps posted for incoming puts, as it
-- is in every state between two calls, and post_put_recv, which posts it.
use lcw.Base.{
  ℕ, ◌≡◌, ◌≢◌, refl, sym, ap, ◌∙◌, true, Option, some, List, Holds-map, deref, get_elem?, Holds,
  Holds-bind,
}
use mathlib.Core.Option.{some-injective}
use lcw.Api.{Ptr}
use lcw.Mpi.Types.{DeviceT, MpiApi, pred_ℤ, State}
use lcw.Mpi.Device.{put_request, post_put_recv}
use lcw.Mpi.Put.{
  Each-set, Ignores, Devices, Found, device_at-Holds, in_world-Keeps, enter_stream_cs-Keeps,
  leave_stream_cs-Keeps,
}

-- A device takes puts in, and the tag that it keeps for them is the one above those of sends and
-- receives.
pub record IsOpen (d : DeviceT) : Type 0 where
  pub enabled : d.enable_put ≡ true
  pub tags : d.max_tag_2sided ≡ pred_ℤ d.put_tag

-- The device at `p` has its receive posted in its own name, into its own buffer and with its own tag;
-- only the device `held`, if there is one, has the lock on its entry taken.
pub record IsPosted {W : Type 0} (api : MpiApi W) (held : Option ℕ) (p : ℕ) (d : DeviceT)
    : Type 0 where
  pub request : d.put_entry.request ≡ put_request api (some p) d
  pub device : d.put_entry.device ≡ some p
  pub is_open : IsOpen d
  pub unlocked : d.put_entry_locked ≡ true → held ≡ some p

-- The same, save that the device at `here` may have its receive still to post.
pub record IsAwaiting {W : Type 0} (api : MpiApi W) (held : Option ℕ) (here p : ℕ) (d : DeviceT)
    : Type 0 where
  pub posted : p ≢ here → IsPosted api held p d
  pub is_open : IsOpen d
  pub unlocked : d.put_entry_locked ≡ true → held ≡ some p

-- The device at `here` moreover has the buffer and the tag of `first`, as it was read before.
record IsKeeping {W : Type 0} (api : MpiApi W) (held : Option ℕ) (here : ℕ) (first : DeviceT)
    (p : ℕ) (d : DeviceT) : Type 0 where
  awaiting : IsAwaiting api held here p d
  same : p ≡ here → put_request api (some p) d ≡ put_request api (some p) first

same_device :
    (ds : List (Option DeviceT)) (q p : ℕ) (e d : DeviceT)
    → q ≡ p
    → deref (get_elem? ds q) ≡ some e
    → deref (get_elem? ds p) ≡ some d
    → e ≡ d
same_device ds q p e d m l k = some-injective e d (sym l ∙ ap (λ n. deref (get_elem? ds n)) m ∙ k)

module _ {W : Type 0} (api : MpiApi W) (held : Option ℕ) where
  pub IsPosted-Ignores : Ignores (IsPosted api held)
  IsPosted-Ignores p d b h = record {
    request = h.request;
    device = h.device;
    is_open = record { enabled = h.is_open.enabled; tags = h.is_open.tags };
    unlocked = h.unlocked;
  }

  pub IsAwaiting-Ignores : (here : ℕ) → Ignores (IsAwaiting api held here)
  IsAwaiting-Ignores here p d b h = record {
    posted = λ n. IsPosted-Ignores p d b (h.posted n);
    is_open = record { enabled = h.is_open.enabled; tags = h.is_open.tags };
    unlocked = h.unlocked;
  }

  IsKeeping-Ignores : (here : ℕ) (first : DeviceT) → Ignores (IsKeeping api held here first)
  IsKeeping-Ignores here first p d b h = record {
    awaiting = IsAwaiting-Ignores here p d b h.awaiting;
    same = h.same;
  }

  pub IsPosted-IsAwaiting :
      (here p : ℕ) (d : DeviceT) → IsPosted api held p d → IsAwaiting api held here p d
  IsPosted-IsAwaiting here p d h = record {
    posted = λ _. h;
    is_open = h.is_open;
    unlocked = h.unlocked;
  }

  -- Posting a device's receive completes the picture.
  pub post_put_recv-Holds :
      (p : ℕ) (c : Ptr)
      → Holds
          (Devices (IsAwaiting api held p))
          (post_put_recv api (some p) c)
          (λ _. Devices {W = W} (IsPosted api held))
  unfolding post_put_recv
  post_put_recv-Holds p c =
      Holds-bind _ (Found (IsAwaiting api held p) (some p)) _ _ (device_at-Holds _ (some p)) λ d.
        Holds-map (kept d) (λ _ _ h. h)
          (Holds-bind _ (λ _. Devices (IsKeeping api held p d)) _ _
            (enter_stream_cs-Keeps (IsKeeping api held p d) (IsKeeping-Ignores p d) (some p))
            λ _.
              Holds-bind _ (λ _. Devices (IsKeeping api held p d)) _ _
                (in_world-Keeps (IsKeeping api held p d) _)
                λ r.
                  Holds-bind _ (λ _. Devices (IsKeeping api held p d)) _ _
                    (leave_stream_cs-Keeps (IsKeeping api held p d) (IsKeeping-Ignores p d)
                      (some p))
                    λ _.
                      Holds-bind _ (Found (IsKeeping api held p d) (some p)) _ _
                        (device_at-Holds _ (some p))
                        λ d'. record {
                          at = λ s h.
                              Each-set (IsPosted api held) s.devices p _
                                (λ q e n l. (h.0 q e l).awaiting.posted n)
                                (record {
                                  request = sym ((h.0 p d' h.1).same refl);
                                  device = refl;
                                  is_open =
                                      let o = (h.0 p d' h.1).awaiting.is_open in
                                      record { enabled = o.enabled; tags = o.tags };
                                  unlocked = (h.0 p d' h.1).awaiting.unlocked;
                                });
                        })
    where
      kept :
          (d : DeviceT) (s : State W)
          → Found (IsAwaiting api held p) (some p) d s
          → Devices (IsKeeping api held p d) s
      kept d s h q e l = record {
        awaiting = h.0 q e l;
        same = λ m. ap (put_request api (some q)) (same_device s.devices q p e d m l h.1);
      }
