-- ===== src/Mpi/Post/Balance.antt =====
-- The ledger across send, recv and put of src/backend/mpi/backend_mpi.cpp: a call that returns
-- true has added one entry of its operation, and one that returns false has added none.
use lcw.Base.{
  ℕ, ℤ, Bool, true, false, Option, to_size_t, to_int, Action, Holds, Holds-bind, Holds-map,
  Keeps-assert,
}
use lcw.Api.{Ptr, OpT, RequestT}
use lcw.Comp.{Host}
use lcw.Mpi.Types.{MpiApi, DeviceT, State}
use lcw.Mpi.Bigcount.{isend, irecv}
use lcw.Mpi.Frame.{
  Core, Books, On, device_at-Keeps, in_world-Keeps, enter_stream_cs-Keeps, leave_stream_cs-Keeps,
}
use lcw.Mpi.Ledger.{Hand, Inv, Settles}
use lcw.Mpi.Manager.Balance.{add_entry-Holds}
use lcw.Mpi.Post.{
  acquire_pending, request_of, entry_of, post_send, post_recv, send_after, send, recv, put_after,
  put,
}

-- By the result of a call: the ledger `L'` once the operation is posted, `L` as before.
abbrev pub After : (OpT → ℕ) → (ℕ → Books → Type 0) → (ℕ → Books → Type 0) → Bool → Core → Type 0
After w L L' true = Inv w L'
After w L L' false = Inv w L

abbrev pub Entered :
    (OpT → ℕ) → (ℕ → Books → Type 0) → (ℕ → Books → Type 0) → OpT → Bool → Core → Type 0
Entered w L L' op true = Hand w L' (w op)
Entered w L L' op false = Inv w L

module _ {W : Type 0} (host : Host W) (api : MpiApi W) (w : OpT → ℕ) (L L' : ℕ → Books → Type 0)
    (settles : Settles W w L') where
  post_send-Holds :
      (d : DeviceT) (r : RequestT) (c : Ptr)
      → Holds (On (Hand w L' (w r.op))) (post_send host api d r c) (λ b. On (After w L L' b))
  unfolding post_send
  post_send-Holds d r c =
      Holds-bind _ (λ _. On hand) _ _ (enter_stream_cs-Keeps hand r.device)
        λ _.
          Holds-bind _ (λ _. On hand) _ _ (in_world-Keeps hand posted)
            λ q.
              Holds-bind _ (λ _. On hand) _ _ (leave_stream_cs-Keeps hand r.device)
                λ _.
                  Holds-bind _ (λ _. On (Inv w L')) _ _
                    (add_entry-Holds host api w L' settles d.comp_manager (entry_of r c q))
                    λ _. record { at = λ s h. h }
    where
      hand : Core → Type 0
      hand = Hand w L' (w r.op)

      posted : Action W (Option ℕ)
      posted = isend api r.buffer (to_size_t r.length) (to_int r.rank) (to_int r.tag) d.comm

  post_recv-Holds :
      (d : DeviceT) (r : RequestT) (c : Ptr)
      → Holds (On (Hand w L' (w r.op))) (post_recv host api d r c) (λ b. On (After w L L' b))
  unfolding post_recv
  post_recv-Holds d r c =
      Holds-bind _ (λ _. On hand) _ _ (enter_stream_cs-Keeps hand r.device)
        λ _.
          Holds-bind _ (λ _. On hand) _ _ (in_world-Keeps hand posted)
            λ q.
              Holds-bind _ (λ _. On hand) _ _ (leave_stream_cs-Keeps hand r.device)
                λ _.
                  Holds-bind _ (λ _. On (Inv w L')) _ _
                    (add_entry-Holds host api w L' settles d.comp_manager (entry_of r c q))
                    λ _. record { at = λ s h. h }
    where
      hand : Core → Type 0
      hand = Hand w L' (w r.op)

      posted : Action W (Option ℕ)
      posted = irecv api r.buffer (to_size_t r.length) (to_int r.rank) (to_int r.tag) d.comm

  send_after-Holds :
      (b : Bool) (r : RequestT) (c : Ptr)
      → Holds (On (Entered w L L' r.op b)) (send_after host api b r c) (λ b. On (After w L L' b))
  unfolding send_after
  send_after-Holds false r c = record { at = λ s h. h }
  send_after-Holds true r c =
      Holds-bind _ (λ _. On (Hand w L' (w r.op))) _ _
        (device_at-Keeps (Hand w L' (w r.op)) r.device) λ d. post_send-Holds d r c

  pub send-Holds :
      Holds (On (Inv w L)) (acquire_pending {W = W}) (λ b. On (Entered w L L' OpT.send b))
      → (device : Ptr) (rank tag : ℤ) (buf : Ptr) (length : ℤ) (c : Ptr) (u : ℕ)
      → Holds
          (On (Inv w L))
          (send host api device rank tag buf length c u)
          (λ b. On (After w L L' b))
  unfolding send
  send-Holds opens device rank tag buf length c u =
      Holds-bind _ (λ b. On (Entered w L L' OpT.send b)) _ _ opens
        λ b. send_after-Holds b (request_of OpT.send device rank tag buf length u) c

  pub recv-Holds :
      ((s : State W) → On (Inv w L) s → On (Hand w L' (w OpT.recv)) s)
      → (device : Ptr) (rank tag : ℤ) (buf : Ptr) (length : ℤ) (c : Ptr) (u : ℕ)
      → Holds
          (On (Inv w L))
          (recv host api device rank tag buf length c u)
          (λ b. On (After w L L' b))
  unfolding recv
  recv-Holds opens device rank tag buf length c u =
      Holds-map opens (λ _ s h. h)
        (Holds-bind _ (λ _. On (Hand w L' (w OpT.recv))) _ _
          (device_at-Keeps (Hand w L' (w OpT.recv)) device)
          λ d. post_recv-Holds d (request_of OpT.recv device rank tag buf length u) c)

  put_after-Holds :
      (b : Bool) (d : DeviceT) (r : RequestT) (c : Ptr)
      → Holds (On (Entered w L L' r.op b)) (put_after host api b d r c) (λ b. On (After w L L' b))
  unfolding put_after
  put_after-Holds false d r c = record { at = λ s h. h }
  put_after-Holds true d r c = post_send-Holds d r c

  pub put-Holds :
      Holds (On (Inv w L)) (acquire_pending {W = W}) (λ b. On (Entered w L L' OpT.put b))
      → (device : Ptr) (rank : ℤ) (buf : Ptr) (length : ℤ) (c : Ptr) (u : ℕ)
      → Holds (On (Inv w L)) (put host api device rank buf length c u) (λ b. On (After w L L' b))
  unfolding put
  put-Holds opens device rank buf length c u =
      Holds-bind _ (λ _. On (Inv w L)) _ _ (device_at-Keeps (Inv w L) device)
        λ d.
          Holds-bind _ (λ _. On (Inv w L)) _ _ (Keeps-assert (On (Inv w L)) d.enable_put)
            λ _.
              Holds-bind _ (λ b. On (Entered w L L' OpT.put b)) _ _ opens
                λ b. put_after-Holds b d (request_of OpT.put device rank d.put_tag buf length u) c
