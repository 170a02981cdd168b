-- ===== src/Gate/Revocation/Mirror.antt =====
-- The local set is dun-api's list.
use dun_tunel.Prelude.{ℕ, Text, Option, none, some, List, ◌≡◌, refl, ◌⊎◌, inl, inr, arith}
use dun_tunel.Gate.Revocation.{
  Inner, Poller, Reply, Poll, not_modified, listed, unparsed, http_error, unreachable, start_poller,
  poll, if_none_match,
}

-- What dun-api may reply while its list is `jtis`: a 304 only to the ETag of that very list; the
-- list, with its ETag or with none; or a failure.
pub data Serves (etag_of : List Text → Text) (jtis : List Text) (sent : Option Text)
    : Reply → Type 0 where
  unchanged : sent ≡ some (etag_of jtis) → Serves etag_of jtis sent not_modified
  tagged : Serves etag_of jtis sent (listed jtis (some (etag_of jtis)))
  untagged : Serves etag_of jtis sent (listed jtis none)
  garbled : Serves etag_of jtis sent unparsed
  refused : Serves etag_of jtis sent http_error
  lost : Serves etag_of jtis sent unreachable

-- A run of the loop, each request against the list that dun-api then has.
pub data Polls (etag_of : List Text → Text) : Poller → Poller → Type 0 where
  stop : {p : Poller} → Polls etag_of p p
  next :
      {p q : Poller} (jtis : List Text) (r : Poll)
      → Polls etag_of p q
      → Serves etag_of jtis (if_none_match q) r.reply
      → Polls etag_of p (poll q r)

module _ (etag_of : List Text → Text) where
  -- The stored ETag is that of the stored set.
  abbrev Tagged : Inner → Type 0
  Tagged i = (i.last_etag ≡ none) ⊎ (i.last_etag ≡ some (etag_of i.set))

  poll-Tagged :
      (q : Poller) (jtis : List Text) (r : Poll) {reply : Reply}
      → r.reply ≡ reply
      → Serves etag_of jtis (if_none_match q) reply
      → Tagged q.inner
      → Tagged (poll q r).inner
  unfolding poll
  poll-Tagged q jtis r e (unchanged h) t = rw (e, poll) t
  poll-Tagged q jtis r e tagged t = rw (e, poll) (inr refl)
  poll-Tagged q jtis r e untagged t = rw (e, poll) (inl refl)
  poll-Tagged q jtis r e garbled t = rw (e, poll) t
  poll-Tagged q jtis r e refused t = rw (e, poll) t
  poll-Tagged q jtis r e lost t = rw (e, poll) t

  Polls-Tagged : {p q : Poller} → Polls etag_of p q → Tagged p.inner → Tagged q.inner
  Polls-Tagged stop t = t
  Polls-Tagged (next {q = q} jtis r run serves) t =
      poll-Tagged q jtis r refl serves (Polls-Tagged run t)

-- The poll got through: a 304, or a list.
pub data Succeeds : Reply → Type 0 where
  quiet : Succeeds not_modified
  news : {jtis : List Text} {etag : Option Text} → Succeeds (listed jtis etag)

-- Let the ETags of different lists differ. After any run of the loop, a poll that gets through
-- leaves exactly dun-api's list of that moment in the local set and its time as the last success,
-- and a poll that fails changes neither the set, the last success nor the ETag.
pub poll-mirrors :
    (etag_of : List Text → Text) (poll_interval max_staleness now : ℕ) (p : Poller)
    (jtis : List Text) (r : Poll)
    → ((a b : List Text) → etag_of a ≡ etag_of b → a ≡ b)
    → Polls etag_of (start_poller poll_interval max_staleness now) p
    → Serves etag_of jtis (if_none_match p) r.reply
    → (Succeeds r.reply
        → ((poll p r).inner.set ≡ jtis) × ((poll p r).inner.last_success ≡ some r.recorded_at))
      × ((¬ Succeeds r.reply) → (poll p r).inner ≡ p.inner)
unfolding poll
poll-mirrors etag_of poll_interval max_staleness now p jtis r inj run serves =
    at_reply r.reply refl serves (Polls-Tagged etag_of run (inl (unfold start_poller in refl)))
  where
    at_reply :
        (reply : Reply)
        → r.reply ≡ reply
        → Serves etag_of jtis (if_none_match p) reply
        → Tagged etag_of p.inner
        → (Succeeds reply
            → ((poll p r).inner.set ≡ jtis) × ((poll p r).inner.last_success ≡ some r.recorded_at))
          × ((¬ Succeeds reply) → (poll p r).inner ≡ p.inner)
    at_reply _ e (unchanged h) (inl none_sent) = absurd (cc (h, none_sent))
    at_reply _ e (unchanged h) (inr sent) =
        (λ _. rw (e, poll) (inj _ _ (ground (arith, h, sent)), refl), λ n. absurd (n quiet))
    at_reply _ e tagged t = (λ _. rw (e, poll) (refl, refl), λ n. absurd (n news))
    at_reply _ e untagged t = (λ _. rw (e, poll) (refl, refl), λ n. absurd (n news))
    at_reply _ e garbled t = (λ s. elim s [ ], λ _. rw (e, poll))
    at_reply _ e refused t = (λ s. elim s [ ], λ _. rw (e, poll))
    at_reply _ e lost t = (λ s. elim s [ ], λ _. rw (e, poll))
