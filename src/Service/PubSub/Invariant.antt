-- ===== src/Service/PubSub/Invariant.antt =====
-- The well-formedness of the subscriptions, and `Subscribe`.
use fast_kv_a_lightweight_ke.Base.{
  ℕ, ◌+◌, ◌<◌, ◌≤◌, ◌≡◌, ◌≢◌, refl, Bool, true, false, ◌&&◌, some, [], ◌∷◌, length, ◌==◌, is_some,
  nat_eq, if◌then◌else◌, arith, inl, inr, Bool-cases,
}
use fast_kv_a_lightweight_ke.Base.Bytes.{Bytes, bytes_key, bytes_eq, bytes_eq_iff}
use fast_kv_a_lightweight_ke.Base.Dict.{
  Dict, lookup, insert, lookup-insert, NodupKeys, NodupKeys-insert,
}
use fast_kv_a_lightweight_ke.Service.PubSub.{
  capacity, PubSub, new_pub_sub, subscribers_of, set_channel, subscribe,
}

-- Whether a channel is registered under a name.
unfoldable pub is_subscribed : Bytes → ℕ → PubSub → Bool
unfolding subscribers_of
is_subscribed name ch ps = is_some (lookup ch (subscribers_of name ps))

-- A registered channel is open and registered under one name, no buffer is over its capacity, no
-- name is kept without a channel, and nothing has panicked.
pub record IsWellFormed (ps : PubSub) : Type 0 where
  pub nodup : (name : Bytes) → NodupKeys (subscribers_of name ps)
  pub live :
      (name : Bytes) (ch : ℕ)
      → is_subscribed name ch ps ≡ true
      → (ch < ps.next) × ((ps.channels ch).closed ≡ false)
  pub one_name :
      (name other : Bytes) (ch : ℕ)
      → is_subscribed name ch ps ≡ true
      → is_subscribed other ch ps ≡ true
      → name ≡ other
  pub bounded : (ch : ℕ) → length (ps.channels ch).messages ≤ capacity
  pub kept : (name : Bytes) → lookup name ps.subscribers ≢ some []
  pub calm : ps.panicked ≡ false

pub new_pub_sub-IsWellFormed : IsWellFormed new_pub_sub
unfolding is_subscribed subscribers_of lookup
new_pub_sub-IsWellFormed = record {
  nodup = λ name. tt;
  live = λ name ch h. absurd (ground arith);
  one_name = λ name other ch h. absurd (ground arith);
  bounded = λ ch. omega arith;
  kept = λ name h. absurd (ground arith);
  calm = refl;
}

pub subscribers_of-insert :
    (name other : Bytes) (subs : Dict ℕ Bool) (ps : PubSub)
    → subscribers_of other (record ps { subscribers = insert name subs ps.subscribers })
      ≡ (if bytes_eq name other then subs else subscribers_of other ps)
unfolding subscribers_of
subscribers_of-insert name other subs ps =
    ground (arith, lookup-insert name other subs ps.subscribers)

insert-nonempty : (ch : ℕ) (b : Bool) (subs : Dict ℕ Bool) → insert ch b subs ≢ []
unfolding insert
insert-nonempty ch b [] h = cc
insert-nonempty ch b ((j, c) ∷ subs) h = ground arith

module _ (ps : PubSub) (wf : IsWellFormed ps) (name : Bytes) where
  subscribe-nodup : (other : Bytes) → NodupKeys (subscribers_of other (subscribe name ps).0)
  unfolding subscribe
  subscribe-nodup other = elim (Bool-cases (bytes_eq name other)) [
    | inl same ↦
        rw
          (subscribers_of-insert name other (insert ps.next true (subscribers_of name ps)) ps, same)
          (NodupKeys-insert ps.next true _ (wf.nodup name))
    | inr away ↦
        rw
          (subscribers_of-insert name other (insert ps.next true (subscribers_of name ps)) ps, away)
          (wf.nodup other)
  ]

  -- The channel of a subscription is new, and is registered under its name and no other.
  pub is_subscribed-subscribe :
      (other : Bytes) (ch : ℕ)
      → is_subscribed other ch (subscribe name ps).0
        ≡ (if bytes_eq name other && (ps.next == ch) then true else is_subscribed other ch ps)
  unfolding is_subscribed subscribe
  is_subscribed-subscribe other ch = ground (
    arith,
    lookup-insert name other (insert ps.next true (subscribers_of name ps)) ps.subscribers,
    subscribers_of-insert name other (insert ps.next true (subscribers_of name ps)) ps,
    lookup-insert ps.next ch true (subscribers_of name ps),
    bytes_eq_iff name other,
  )

  channels-subscribe :
      (ch : ℕ)
      → (subscribe name ps).0.channels ch
        ≡ (if ps.next == ch then record { messages = []; closed = false } else ps.channels ch)
  unfolding subscribe set_channel
  channels-subscribe ch = refl

  subscribe-live :
      (other : Bytes) (ch : ℕ)
      → is_subscribed other ch (subscribe name ps).0 ≡ true
      → (ch < ps.next + 1) × (((subscribe name ps).0.channels ch).closed ≡ false)
  subscribe-live other ch h =
      ground (arith, channels-subscribe ch, is_subscribed-subscribe other ch, wf.live other ch)

  subscribe-one_name :
      (n1 n2 : Bytes) (ch : ℕ)
      → is_subscribed n1 ch (subscribe name ps).0 ≡ true
      → is_subscribed n2 ch (subscribe name ps).0 ≡ true
      → n1 ≡ n2
  subscribe-one_name n1 n2 ch h1 h2 = ground (
    arith,
    is_subscribed-subscribe n1 ch,
    is_subscribed-subscribe n2 ch,
    wf.live n1 ch,
    wf.live n2 ch,
    wf.one_name n1 n2 ch,
    bytes_eq_iff name n1,
    bytes_eq_iff name n2,
  )

  subscribe-kept : (other : Bytes) → lookup other (subscribe name ps).0.subscribers ≢ some []
  unfolding subscribe
  subscribe-kept other h = ground (
    arith,
    wf.kept other,
    lookup-insert name other (insert ps.next true (subscribers_of name ps)) ps.subscribers,
    insert-nonempty ps.next true (subscribers_of name ps),
  )

  -- A subscription keeps the state well formed.
  pub subscribe-IsWellFormed : IsWellFormed (subscribe name ps).0
  subscribe-IsWellFormed = record {
    nodup = subscribe-nodup;
    live = λ other ch h. (unfold subscribe in subscribe-live other ch h);
    one_name = subscribe-one_name;
    bounded = λ ch. ground (arith, channels-subscribe ch, wf.bounded ch);
    kept = subscribe-kept;
    calm = unfold subscribe in wf.calm;
  }
