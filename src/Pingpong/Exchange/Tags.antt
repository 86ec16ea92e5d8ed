-- ===== src/Pingpong/Exchange/Tags.antt =====
-- The tags of the messages that the calls of an iteration send and receive.
use lcw.Base.{
  ℤ, ℕ, zero, suc, ◌+◌, ◌≡◌, refl, ap, Bool, true, false, List, [], ◌∷◌, ◌++◌, if◌then◌else◌,
}
use lcw.Pingpong.Workers.{Config, get_tag}
use lcw.Pingpong.Exchange.{
  BufferT, Call, recvs, sends, puts, polls_scq, polls_rcq, Exchange, post_recvs, send_or_put,
  post_sends, recvs_of,
}

-- The tags of the messages received and sent, in the order of the calls.
unfoldable pub recv_tags : List Call → List ℤ
recv_tags [] = []
recv_tags (recvs t a ∷ cs) = t ∷ recv_tags cs
recv_tags (sends t a ∷ cs) = recv_tags cs
recv_tags (puts a ∷ cs) = recv_tags cs
recv_tags (polls_scq ∷ cs) = recv_tags cs
recv_tags (polls_rcq ∷ cs) = recv_tags cs

unfoldable pub send_tags : List Call → List ℤ
send_tags [] = []
send_tags (recvs t a ∷ cs) = send_tags cs
send_tags (sends t a ∷ cs) = t ∷ send_tags cs
send_tags (puts a ∷ cs) = send_tags cs
send_tags (polls_scq ∷ cs) = send_tags cs
send_tags (polls_rcq ∷ cs) = send_tags cs

pub recv_tags-append : (xs ys : List Call) → recv_tags (xs ++ ys) ≡ recv_tags xs ++ recv_tags ys
unfolding recv_tags
recv_tags-append [] ys = refl
recv_tags-append (recvs t a ∷ xs) ys = ap (◌∷◌ t) (recv_tags-append xs ys)
recv_tags-append (sends t a ∷ xs) ys = recv_tags-append xs ys
recv_tags-append (puts a ∷ xs) ys = recv_tags-append xs ys
recv_tags-append (polls_scq ∷ xs) ys = recv_tags-append xs ys
recv_tags-append (polls_rcq ∷ xs) ys = recv_tags-append xs ys

pub send_tags-append : (xs ys : List Call) → send_tags (xs ++ ys) ≡ send_tags xs ++ send_tags ys
unfolding send_tags
send_tags-append [] ys = refl
send_tags-append (recvs t a ∷ xs) ys = send_tags-append xs ys
send_tags-append (sends t a ∷ xs) ys = ap (◌∷◌ t) (send_tags-append xs ys)
send_tags-append (puts a ∷ xs) ys = send_tags-append xs ys
send_tags-append (polls_scq ∷ xs) ys = send_tags-append xs ys
send_tags-append (polls_rcq ∷ xs) ys = send_tags-append xs ys

module _ (c : Config) (x : Exchange) (worker_id msg_size i : ℕ) where
  pub tags : ℕ → ℕ → List ℤ
  tags j zero = []
  tags j (suc n) = get_tag c worker_id j ∷ tags (j + 1) n

  abbrev pub tags_if : Bool → ℕ → List ℤ
  tags_if true n = tags 0 n
  tags_if false n = []

  recv_tags-post_recvs :
      (base : BufferT) (j n : ℕ)
      → recv_tags (post_recvs c x worker_id msg_size i base j n) ≡ tags j n
  unfolding recv_tags post_recvs tags
  recv_tags-post_recvs base j zero = refl
  recv_tags-post_recvs base j (suc n) =
      ap (◌∷◌ (get_tag c worker_id j)) (recv_tags-post_recvs base (j + 1) n)

  pub recv_tags-recvs_of :
      (base : BufferT) (n : ℕ)
      → recv_tags (recvs_of c x worker_id msg_size i base n) ≡ tags_if x.is_send n
  unfolding recvs_of recv_tags
  recv_tags-recvs_of base n = go x.is_send
    where
      go :
          (b : Bool)
          → recv_tags (if b then post_recvs c x worker_id msg_size i base 0 n else []) ≡ tags_if b n
      go true = recv_tags-post_recvs base 0 n
      go false = refl

  pub send_tags-recvs_of :
      (base : BufferT) (n : ℕ) → send_tags (recvs_of c x worker_id msg_size i base n) ≡ []
  unfolding recvs_of send_tags post_recvs
  send_tags-recvs_of base n = go x.is_send
    where
      none_sent : (j n : ℕ) → send_tags (post_recvs c x worker_id msg_size i base j n) ≡ []
      none_sent j zero = refl
      none_sent j (suc n) = none_sent (j + 1) n

      go :
          (b : Bool)
          → send_tags (if b then post_recvs c x worker_id msg_size i base 0 n else []) ≡ []
      go true = none_sent 0 n
      go false = refl

  pub recv_tags-post_sends :
      (base : BufferT) (j n : ℕ) → recv_tags (post_sends c x worker_id msg_size i base j n) ≡ []
  unfolding recv_tags post_sends send_or_put
  recv_tags-post_sends base j zero = refl
  recv_tags-post_sends base j (suc n) = go x.is_send _ (recv_tags-post_sends base (j + 1) n)
    where
      go :
          (b : Bool) (cs : List Call)
          → recv_tags cs ≡ []
          → recv_tags (send_or_put c x worker_id msg_size i base b j ∷ cs) ≡ []
      go true cs h = h
      go false cs h = h

  send_tags-sent :
      (base : BufferT) (b : Bool) (j n : ℕ)
      → x.is_send ≡ b
      → send_tags (post_sends c x worker_id msg_size i base j n) ≡ (if b then tags j n else [])
  unfolding send_tags post_sends send_or_put tags
  send_tags-sent base true j zero e = refl
  send_tags-sent base false j zero e = refl
  send_tags-sent base true j (suc n) e =
      rw e (ap (◌∷◌ (get_tag c worker_id j)) (send_tags-sent base true (j + 1) n e))
  send_tags-sent base false j (suc n) e = rw e (send_tags-sent base false (j + 1) n e)

  pub send_tags-post_sends :
      (base : BufferT) (n : ℕ)
      → send_tags (post_sends c x worker_id msg_size i base 0 n) ≡ tags_if x.is_send n
  send_tags-post_sends base n = go x.is_send refl
    where
      go :
          (b : Bool)
          → x.is_send ≡ b
          → send_tags (post_sends c x worker_id msg_size i base 0 n) ≡ tags_if b n
      go true e = send_tags-sent base true 0 n e
      go false e = send_tags-sent base false 0 n e
