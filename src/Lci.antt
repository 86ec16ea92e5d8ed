-- ===== src/Lci.antt =====
-- src/backend/lci/backend_lci.cpp: the LCI backend.
pub mod Keeps
pub mod Poll
pub mod Posting
pub mod History
pub mod Table
use lcw.Base.{
  ℕ, ℤ, pos, Bool, true, false, ◌&&◌, ◌||◌, not, Option, none, some, Action, pure, assert, when,
  or_fault, gets, modify, ok, ◌>>=◌, ◌>>◌, assertion, leb_ℤ, ◌==◌, to_size_t, to_int, if◌then◌else◌,
}
use lcw.Api.{Ptr, OpT, put_signal, RequestT}
use lcw.Pcounter.{Trend, send_end, recv_end, put_end}
use lcw.Comp.{Host, Runtime, count}
use lcw.Contexts.{
  State, in_runtime, in_world, device_at, new_device, next_id, new_request, delete_request,
  request_at, run,
}

-- What posting an operation returns.
pub data Code : Type 0 where
  lci_ok lci_err_retry lci_err_other : Code

pub data Port : Type 0 where
  port_command port_message : Port

-- LCI_request_t. The lengths and the address are what reading that member of the union `data` gives,
-- whichever member LCI has written.
pub record LciRequest : Type 0 where
  pub user_context : Ptr
  pub rank : ℤ
  pub tag : ℤ
  pub is_medium : Bool  -- type == LCI_MEDIUM
  pub mbuffer_address : Ptr
  pub mbuffer_length : ℕ
  pub lbuffer_length : ℕ

-- The calls of LCI, and posix_memalign. `none` is an error code, with which LCI_SAFECALL ends the
-- process. An LCI_comp_t is what a comp_t holds.
pub record LciApi (W : Type 0) : Type 0 where
  pub medium_size : ℤ  -- LCI_MEDIUM_SIZE
  pub max_tag : ℤ
  pub ur_device : ℕ
  pub rank : W → ℤ
  pub num_processes : W → ℤ
  pub initialize : W → Option (Unit {0} × W)
  pub finalize : W → Option (Unit {0} × W)
  pub device_init : W → Option (ℕ × W)
  pub device_free : ℕ → W → Option (Unit {0} × W)
  pub plist_create : W → Option (ℕ × W)
  pub plist_set_comp_type : ℕ → Port → W → Option (Unit {0} × W)  -- LCI_COMPLETION_QUEUE
  pub plist_set_match_type : ℕ → W → Option (Unit {0} × W)  -- LCI_MATCH_RANKTAG
  pub plist_set_default_comp : ℕ → Ptr → W → Option (Unit {0} × W)
  pub plist_free : ℕ → W → Option (Unit {0} × W)
  pub endpoint_init : ℕ → ℕ → W → Option (ℕ × W)
  pub endpoint_free : ℕ → W → Option (Unit {0} × W)
  pub progress : ℕ → W → W
  pub barrier : W → Option (Unit {0} × W)
  pub queue_create : W → Ptr × W
  pub queue_free : Ptr → W → W
  -- `none` is LCI_ERR_RETRY.
  pub queue_pop : Ptr → W → Option LciRequest × W
  pub mbuffer_free : Ptr → W → W
  pub memalign : ℕ → W → Option Ptr × W
  -- Endpoint, buffer, size, rank, tag, completion, user context.
  pub sendmc : ℕ → Ptr → ℕ → ℤ → ℤ → Ptr → ℕ → W → Code × W
  pub sendl : ℕ → Ptr → ℕ → ℤ → ℤ → Ptr → ℕ → W → Code × W
  pub recvm : ℕ → Ptr → ℕ → ℤ → ℤ → Ptr → ℕ → W → Code × W
  pub recvl : ℕ → Ptr → ℕ → ℤ → ℤ → Ptr → ℕ → W → Code × W
  -- The tag is 0, and the completion of the target LCI_DEFAULT_COMP_REMOTE.
  pub putmac : ℕ → Ptr → ℕ → ℤ → Ptr → ℕ → W → Code × W
  pub putla : ℕ → Ptr → ℕ → ℤ → Ptr → ℕ → W → Code × W

-- backend_lci::device_t
pub record DeviceT : Type 0 where
  pub id : ℕ
  pub device : ℕ
  pub ep : ℕ

abbrev pub is_ok : Code → Bool
is_ok lci_ok = true
is_ok lci_err_retry = false
is_ok lci_err_other = false

abbrev pub is_expected : Code → Bool
is_expected lci_ok = true
is_expected lci_err_retry = true
is_expected lci_err_other = false

abbrev pub request_of : OpT → Ptr → ℤ → ℤ → Ptr → ℤ → ℕ → RequestT
request_of op device rank tag buf length user_context = record {
  op = op;
  device = device;
  rank = rank;
  tag = tag;
  buffer = buf;
  length = length;
  user_context = user_context;
}

abbrev pub end_of : OpT → Trend
end_of OpT.send = send_end
end_of OpT.recv = recv_end
end_of OpT.put = put_end
end_of put_signal = Trend.put_signal

-- The operations of which poll_cq replaces the length.
abbrev pub is_arrival : OpT → Bool
is_arrival OpT.send = false
is_arrival OpT.recv = true
is_arrival OpT.put = false
is_arrival put_signal = true

abbrev pub arrived : LciRequest → Ptr → RequestT
arrived l buffer = request_of put_signal none l.rank l.tag buffer (pos l.mbuffer_length) 0

-- *request, with the length that has arrived.
abbrev pub completed : LciRequest → RequestT → RequestT
completed l r =
    if is_arrival r.op
    then record r { length = pos (if l.is_medium then l.mbuffer_length else l.lbuffer_length) }
    else r

module _ {W : Type 0} where
  abbrev pub safecall : {A : Type 0} → (W → Option (A × W)) → Action W A
  safecall call w = (or_fault (call w) assertion >>= λ r w'. ok (r.0, r.1)) w

module _ {W : Type 0} (host : Host W) (api : LciApi W) where
  abbrev pub initialize : Action (State DeviceT W) (Unit {0})
  initialize = in_world (safecall api.initialize)

  abbrev pub finalize : Action (State DeviceT W) (Unit {0})
  finalize = in_world (safecall api.finalize)

  unfoldable pub lci_device : ℕ → Action (State DeviceT W) ℕ
  lci_device id = if id == 0 then pure api.ur_device else in_world (safecall api.device_init)

  unfoldable pub alloc_device : ℤ → Ptr → Action (State DeviceT W) Ptr
  unfolding lci_device
  alloc_device max_put_length put_comp = do
    assert (leb_ℤ max_put_length api.medium_size)
    id ← next_id
    device ← lci_device id
    plist ← in_world (safecall api.plist_create)
    in_world (safecall (api.plist_set_comp_type plist port_command))
    in_world (safecall (api.plist_set_comp_type plist port_message))
    in_world (safecall (api.plist_set_match_type plist))
    in_world (safecall (api.plist_set_default_comp plist put_comp))
    ep ← in_world (safecall (api.endpoint_init device plist))
    in_world (safecall (api.plist_free plist))
    new_device (record { id = id; device = device; ep = ep })

  -- The device itself is not deleted.
  unfoldable pub free_device : Ptr → Action (State DeviceT W) (Unit {0})
  free_device device = do
    d ← device_at device
    in_world (safecall (api.endpoint_free d.ep))
    when (not (d.id == 0)) (in_world (safecall (api.device_free d.device)))

  unfoldable pub do_progress : Ptr → Action (State DeviceT W) Bool
  do_progress device = do
    d ← device_at device
    in_world (modify (api.progress d.device))
    pure false

  unfoldable pub alloc_cq : Action (State DeviceT W) Ptr
  alloc_cq = in_world (run api.queue_create)

  unfoldable pub free_cq : Ptr → Action (State DeviceT W) (Unit {0})
  free_cq completion = in_world (modify (api.queue_free completion))

  -- A null context: a put has arrived.
  unfoldable pub take_put : LciRequest → Action (State DeviceT W) RequestT
  take_put l = do
    found ← in_world (run (api.memalign l.mbuffer_length))
    buffer ← or_fault found assertion
    in_world (modify (host.memcpy buffer l.mbuffer_address l.mbuffer_length))
    in_world (modify (api.mbuffer_free l.mbuffer_address))
    pure (arrived l buffer)

  unfoldable pub take_own : LciRequest → ℕ → Action (State DeviceT W) RequestT
  take_own l p = do r ← request_at p; delete_request p; pure (completed l r)

  unfoldable pub request_from : LciRequest → Ptr → Action (State DeviceT W) RequestT
  unfolding take_put take_own
  request_from l none = take_put l
  request_from l (some p) = take_own l p

  unfoldable pub polled : Option LciRequest → Action (State DeviceT W) (Option RequestT)
  unfolding request_from
  polled none = pure none
  polled (some l) = do
    r ← request_from l l.user_context
    modify (λ s. record s { runtime = count (end_of r.op) s.runtime })
    pure (some r)

  -- `none` is the result `false`; otherwise the request is what `*request` receives.
  unfoldable pub poll_cq : Ptr → Action (State DeviceT W) (Option RequestT)
  unfolding polled
  poll_cq completion = do o ← in_world (run (api.queue_pop completion)); polled o

  -- The end of send, recv and put: a request that was not posted is deleted.
  unfoldable pub finish : Code → ℕ → Action (State DeviceT W) Bool
  finish lci_ok p = pure true
  finish lci_err_retry p = do delete_request p; pure false
  finish lci_err_other p = do delete_request p; pure false

  -- What send, recv and put have in common: `checked` is LCW_DEBUG where the code has the first
  -- LCW_DBG_Assert, which recv has not. The second one never fails.
  unfoldable pub post :
      Bool → RequestT → (DeviceT → ℕ → W → Code × W) → Action (State DeviceT W) Bool
  unfolding finish
  post checked r call = do
    p ← new_request r
    d ← device_at r.device
    code ← in_world (run (call d p))
    when checked (assert (is_expected code))
    finish code p

  unfoldable pub send : Bool → Ptr → ℤ → ℤ → Ptr → ℤ → Ptr → ℕ → Action (State DeviceT W) Bool
  unfolding post
  send debug device rank tag buf length completion user_context =
      post debug (request_of OpT.send device rank tag buf length user_context) λ d p.
        if leb_ℤ length api.medium_size
        then api.sendmc d.ep buf (to_size_t length) (to_int rank) tag completion p
        else api.sendl d.ep buf (to_size_t length) (to_int rank) tag completion p

  unfoldable pub recv : Ptr → ℤ → ℤ → Ptr → ℤ → Ptr → ℕ → Action (State DeviceT W) Bool
  unfolding post
  recv device rank tag buf length completion user_context =
      post false (request_of OpT.recv device rank tag buf length user_context) λ d p.
        if leb_ℤ length api.medium_size
        then api.recvm d.ep buf (to_size_t length) (to_int rank) tag completion p
        else api.recvl d.ep buf (to_size_t length) (to_int rank) tag completion p

  unfoldable pub put : Bool → Ptr → ℤ → Ptr → ℤ → Ptr → ℕ → Action (State DeviceT W) Bool
  unfolding post
  put debug device rank buf length completion user_context =
      post debug (request_of OpT.put device rank (pos 0) buf length user_context) λ d p.
        if leb_ℤ length api.medium_size
        then api.putmac d.ep buf (to_size_t length) (to_int rank) completion p
        else api.putla d.ep buf (to_size_t length) (to_int rank) completion p

  unfoldable pub get_max_tag : Ptr → Action (State DeviceT W) ℤ
  get_max_tag device = pure api.max_tag

  unfoldable pub barrier : Ptr → Action (State DeviceT W) (Unit {0})
  barrier device = in_world (safecall api.barrier)
