-- ===== src/Pingpong/Exchange/Match.antt =====
-- The calls of the two sides of an iteration.
use mathlib.Core.List.{append-nil}
use lcw.Base.{
  ℤ, ℕ, zero, suc, ◌+◌, ◌*◌, ◌≡◌, refl, sym, ◌∙◌, Bool, true, false, List, [], ◌∷◌, arith,
  if◌then◌else◌, total, total-append,
}
use lcw.Pingpong.Workers.{Config, get_tag}
use lcw.Pingpong.Exchange.{
  BufferT, send_buffer, recv_buffer, Args, args_of, Call, recvs, sends, puts, polls_scq, polls_rcq,
  Exchange, post_recvs, send_or_put, post_sends, poll, recvs_of, sender, receiver,
}
use lcw.Pingpong.Exchange.Tags.{
  recv_tags, send_tags, tags_if, recv_tags-append, send_tags-append, recv_tags-recvs_of,
  send_tags-recvs_of, recv_tags-post_sends, send_tags-post_sends,
}

-- Completions that a queue will get, and completions awaited there: a send or put completes in scq;
-- a receive, or a put of the other side, in rcq.
abbrev pub outgoing : Call → ℕ
outgoing (sends t a) = 1
outgoing (puts a) = 1
outgoing _ = 0

abbrev pub awaited_scq : Call → ℕ
awaited_scq polls_scq = 1
awaited_scq _ = 0

abbrev pub awaited_rcq : Call → ℕ
awaited_rcq polls_rcq = 1
awaited_rcq _ = 0

module _ (c : Config) (x : Exchange) (worker_id msg_size i : ℕ) where
  -- A weight that no call of the part has.
  total-poll :
      (w : Call → ℕ) (call : Call) (n : ℕ)
      → total w (poll c x worker_id msg_size i call n) ≡ n * w call
  unfolding poll
  total-poll w call zero = omega arith
  total-poll w call (suc n) = grind (arith, total-poll w call n)

  total-post_sends :
      (w : Call → ℕ) (base : BufferT) (a j n : ℕ)
      → ((t : ℤ) (args : Args) → w (sends t args) ≡ a)
      → ((args : Args) → w (puts args) ≡ a)
      → total w (post_sends c x worker_id msg_size i base j n) ≡ n * a
  unfolding post_sends send_or_put
  total-post_sends w base a j zero f g = omega arith
  total-post_sends w base a j (suc n) f g =
      grind (arith, first x.is_send, total-post_sends w base a (j + 1) n f g)
    where
      first : (b : Bool) → w (send_or_put c x worker_id msg_size i base b j) ≡ a
      first true = f _ _
      first false = g _

  total-recvs_of :
      (w : Call → ℕ) (base : BufferT) (n : ℕ)
      → ((t : ℤ) (args : Args) → w (recvs t args) ≡ 0)
      → total w (recvs_of c x worker_id msg_size i base n) ≡ 0
  unfolding recvs_of post_recvs
  total-recvs_of w base n f = go x.is_send
    where
      weightless : (j n : ℕ) → total w (post_recvs c x worker_id msg_size i base j n) ≡ 0
      weightless j zero = refl
      weightless j (suc n) = omega (
        arith,
        f (get_tag c worker_id j) (args_of c x worker_id msg_size i base j),
        weightless (j + 1) n,
      )

      go : (b : Bool) → total w (if b then post_recvs c x worker_id msg_size i base 0 n else []) ≡ 0
      go true = weightless 0 n
      go false = refl

  tags-poll :
      (f : List Call → List ℤ) (call : Call) (n : ℕ)
      → f [] ≡ []
      → ((cs : List Call) → f (call ∷ cs) ≡ f cs)
      → f (poll c x worker_id msg_size i call n) ≡ []
  unfolding poll
  tags-poll f call zero e h = e
  tags-poll f call (suc n) e h = h (poll c x worker_id msg_size i call n) ∙ tags-poll f call n e h

  recv_tags-sender :
      recv_tags (sender c x worker_id msg_size i)
      ≡ tags_if c x worker_id msg_size i x.is_send x.recv_window
  unfolding sender recv_tags
  recv_tags-sender =
      rw
        (
          recv_tags-append,
          recv_tags-recvs_of c x worker_id msg_size i recv_buffer x.recv_window,
          recv_tags-append,
          recv_tags-post_sends c x worker_id msg_size i send_buffer 0 x.send_window,
          recv_tags-append,
          tags-poll recv_tags polls_scq x.send_window refl (λ cs. refl),
          tags-poll recv_tags polls_rcq x.recv_window refl (λ cs. refl),
        )
        (append-nil _)

  recv_tags-receiver :
      recv_tags (receiver c x worker_id msg_size i)
      ≡ tags_if c x worker_id msg_size i x.is_send x.send_window
  unfolding receiver recv_tags
  recv_tags-receiver =
      rw
        (
          recv_tags-append,
          recv_tags-recvs_of c x worker_id msg_size i send_buffer x.send_window,
          recv_tags-append,
          tags-poll recv_tags polls_rcq x.send_window refl (λ cs. refl),
          recv_tags-append,
          recv_tags-post_sends c x worker_id msg_size i recv_buffer 0 x.recv_window,
          tags-poll recv_tags polls_scq x.recv_window refl (λ cs. refl),
        )
        (append-nil _)

  send_tags-sender :
      send_tags (sender c x worker_id msg_size i)
      ≡ tags_if c x worker_id msg_size i x.is_send x.send_window
  unfolding sender send_tags
  send_tags-sender =
      rw
        (
          send_tags-append,
          send_tags-recvs_of c x worker_id msg_size i recv_buffer x.recv_window,
          send_tags-append,
          send_tags-post_sends c x worker_id msg_size i send_buffer x.send_window,
          send_tags-append,
          tags-poll send_tags polls_scq x.send_window refl (λ cs. refl),
          tags-poll send_tags polls_rcq x.recv_window refl (λ cs. refl),
        )
        (append-nil _)

  send_tags-receiver :
      send_tags (receiver c x worker_id msg_size i)
      ≡ tags_if c x worker_id msg_size i x.is_send x.recv_window
  unfolding receiver send_tags
  send_tags-receiver =
      rw
        (
          send_tags-append,
          send_tags-recvs_of c x worker_id msg_size i send_buffer x.send_window,
          send_tags-append,
          tags-poll send_tags polls_rcq x.send_window refl (λ cs. refl),
          send_tags-append,
          send_tags-post_sends c x worker_id msg_size i recv_buffer x.recv_window,
          tags-poll send_tags polls_scq x.recv_window refl (λ cs. refl),
        )
        (append-nil _)

  -- What the parts of an iteration weigh.
  total-sender :
      (w : Call → ℕ) (a : ℕ)
      → ((t : ℤ) (args : Args) → w (recvs t args) ≡ 0)
      → ((t : ℤ) (args : Args) → w (sends t args) ≡ a)
      → ((args : Args) → w (puts args) ≡ a)
      → total w (sender c x worker_id msg_size i)
        ≡ x.send_window * a + x.send_window * w polls_scq + x.recv_window * w polls_rcq
  unfolding sender
  total-sender w a f g h =
      rw
        (
          total-append w,
          total-recvs_of w recv_buffer x.recv_window f,
          total-append w,
          total-post_sends w send_buffer a 0 x.send_window g h,
          total-append w,
          total-poll w polls_scq x.send_window,
          total-poll w polls_rcq x.recv_window,
        )
        (omega arith)

  total-receiver :
      (w : Call → ℕ) (a : ℕ)
      → ((t : ℤ) (args : Args) → w (recvs t args) ≡ 0)
      → ((t : ℤ) (args : Args) → w (sends t args) ≡ a)
      → ((args : Args) → w (puts args) ≡ a)
      → total w (receiver c x worker_id msg_size i)
        ≡ x.recv_window * a + x.recv_window * w polls_scq + x.send_window * w polls_rcq
  unfolding receiver
  total-receiver w a f g h =
      rw
        (
          total-append w,
          total-recvs_of w send_buffer x.send_window f,
          total-append w,
          total-poll w polls_rcq x.send_window,
          total-append w,
          total-post_sends w recv_buffer a 0 x.recv_window g h,
          total-poll w polls_scq x.recv_window,
        )
        (omega arith)

  -- In every iteration the two sides fit together, whatever the windows: the receiver posts receives
  -- with the tags of the sender's sends, in the same order, and the sender with those of the
  -- receiver's; and each waits for as many completions of its own sends or puts as it makes, and for
  -- as many arrivals as the other side makes.
  pub sender-receiver :
      (recv_tags (receiver c x worker_id msg_size i) ≡ send_tags (sender c x worker_id msg_size i))
      × (recv_tags (sender c x worker_id msg_size i)
          ≡ send_tags (receiver c x worker_id msg_size i))
      × (total awaited_scq (sender c x worker_id msg_size i)
          ≡ total outgoing (sender c x worker_id msg_size i))
      × (total awaited_scq (receiver c x worker_id msg_size i)
          ≡ total outgoing (receiver c x worker_id msg_size i))
      × (total awaited_rcq (sender c x worker_id msg_size i)
          ≡ total outgoing (receiver c x worker_id msg_size i))
      × (total awaited_rcq (receiver c x worker_id msg_size i)
          ≡ total outgoing (sender c x worker_id msg_size i))
  sender-receiver = (
    recv_tags-receiver ∙ sym send_tags-sender,
    recv_tags-sender ∙ sym send_tags-receiver,
    omega (arith, sent_by_sender, sender_awaits.0),
    omega (arith, sent_by_receiver, receiver_awaits.0),
    omega (arith, sent_by_receiver, sender_awaits.1),
    omega (arith, sent_by_sender, receiver_awaits.1),
  )
    where
      sent_by_sender : total outgoing (sender c x worker_id msg_size i) ≡ x.send_window
      sent_by_sender =
          omega (arith, total-sender outgoing 1 (λ _ _. refl) (λ _ _. refl) (λ _. refl))

      sent_by_receiver : total outgoing (receiver c x worker_id msg_size i) ≡ x.recv_window
      sent_by_receiver =
          omega (arith, total-receiver outgoing 1 (λ _ _. refl) (λ _ _. refl) (λ _. refl))

      sender_awaits :
          (total awaited_scq (sender c x worker_id msg_size i) ≡ x.send_window)
          × (total awaited_rcq (sender c x worker_id msg_size i) ≡ x.recv_window)
      sender_awaits = (
        omega (arith, total-sender awaited_scq 0 (λ _ _. refl) (λ _ _. refl) (λ _. refl)),
        omega (arith, total-sender awaited_rcq 0 (λ _ _. refl) (λ _ _. refl) (λ _. refl)),
      )

      receiver_awaits :
          (total awaited_scq (receiver c x worker_id msg_size i) ≡ x.recv_window)
          × (total awaited_rcq (receiver c x worker_id msg_size i) ≡ x.send_window)
      receiver_awaits = (
        omega (arith, total-receiver awaited_scq 0 (λ _ _. refl) (λ _ _. refl) (λ _. refl)),
        omega (arith, total-receiver awaited_rcq 0 (λ _ _. refl) (λ _ _. refl) (λ _. refl)),
      )
