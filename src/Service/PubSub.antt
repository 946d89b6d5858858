-- ===== src/Service/PubSub.antt =====
-- kv-distributed/internal/service/pubsub.go: channels of messages by name. Every method holds the
-- lock, so each is one step; a subscriber's receive is another.
pub mod Invariant
pub mod Closing
pub mod Delivery
pub mod Runs
use fast_kv_a_lightweight_ke.Base.{
  ℕ, ◌+◌, Bool, true, false, Option, none, some, List, [], ◌∷◌, ◌++◌, length, ltb, ◌==◌, is_some,
  nat_eq, if◌then◌else◌,
}
use fast_kv_a_lightweight_ke.Base.Bytes.{Bytes, bytes_key}
use fast_kv_a_lightweight_ke.Base.Dict.{Dict, lookup, insert, remove, RangeOrder}

abbrev pub capacity : ℕ
capacity = 100

-- A buffered channel of strings: its messages, the oldest first.
pub record Channel : Type 0 where
  pub messages : List Bytes
  pub closed : Bool

-- The channels are known by numbers, in the order they are made. `panicked` tells whether a send on
-- a closed channel or a second close has happened.
pub record PubSub : Type 0 where
  pub subscribers : Dict Bytes (Dict ℕ Bool)
  pub channels : ℕ → Channel
  pub next : ℕ
  pub panicked : Bool

abbrev pub new_pub_sub : PubSub
new_pub_sub = record {
  subscribers = [];
  channels = λ ch. record { messages = []; closed = false };
  next = 0;
  panicked = false;
}

-- `ps.subscribers[channel]`: a missing map reads as an empty one.
unfoldable pub subscribers_of : Bytes → PubSub → Dict ℕ Bool
subscribers_of channel ps = elim (lookup channel ps.subscribers) [ none ↦ [] | some subs ↦ subs ]

-- A change of one channel.
unfoldable pub set_channel : ℕ → Channel → (ℕ → Channel) → ℕ → Channel
set_channel ch c channels other = if ch == other then c else channels other

unfoldable pub subscribe : Bytes → PubSub → PubSub × ℕ
unfolding subscribers_of set_channel
subscribe channel ps =
    let ch : ℕ = ps.next in
    (
      record ps {
        subscribers = insert channel (insert ch true (subscribers_of channel ps)) ps.subscribers;
        channels = set_channel ch (record { messages = []; closed = false }) ps.channels;
        next = ps.next + 1;
      },
      ch,
    )

-- `close(ch)`
unfoldable pub close : ℕ → PubSub → PubSub
unfolding set_channel
close ch ps = if (ps.channels ch).closed then record ps { panicked = true } else record ps {
  channels = set_channel ch (record (ps.channels ch) { closed = true }) ps.channels;
}

-- `if len(subs) == 0 { delete(ps.subscribers, channel) }`
unfoldable pub drop_empty : Bytes → Dict ℕ Bool → PubSub → PubSub
drop_empty channel [] ps = record ps { subscribers = remove channel ps.subscribers }
drop_empty channel (entry ∷ subs) ps = ps

unfoldable pub unsubscribe : Bytes → ℕ → PubSub → PubSub
unfolding close drop_empty
unsubscribe channel ch ps = elim (lookup channel ps.subscribers) [
  | none ↦ ps
  | some subs ↦
      if is_some (lookup ch subs)
      then (let rest : Dict ℕ Bool = remove ch subs in
          drop_empty channel rest
            (close ch (record ps { subscribers = insert channel rest ps.subscribers })))
      else drop_empty channel subs ps
]

-- `select { case ch <- message: default: }`
unfoldable pub offer : ℕ → Bytes → PubSub → PubSub
unfolding set_channel
offer ch message ps =
    let c : Channel = ps.channels ch in
    if c.closed
    then record ps { panicked = true }
    else if ltb (length c.messages) capacity
    then record ps {
      channels = set_channel ch (record c { messages = c.messages ++ message ∷ [] }) ps.channels;
    }
    else ps

unfoldable pub offer_all : List (ℕ × Bool) → Bytes → PubSub → PubSub
offer_all [] message ps = ps
offer_all ((ch, subscribed) ∷ rest) message ps = offer_all rest message (offer ch message ps)

unfoldable pub publish : RangeOrder ℕ Bool → Bytes → Bytes → PubSub → PubSub
unfolding offer_all
publish order channel message ps = elim (lookup channel ps.subscribers) [
  | none ↦ ps
  | some subs ↦ offer_all (order.visit subs) message ps
]

-- `<-msgChan` of a subscriber: the oldest message, or the empty string of a closed channel that has
-- none. An open channel without a message has the subscriber wait.
unfoldable pub receive : ℕ → PubSub → PubSub × Option Bytes
unfolding set_channel
receive ch ps = elim (ps.channels ch).messages [
  | [] ↦ (ps, if (ps.channels ch).closed then some [] else none)
  | message ∷ later ↦ (
    record ps {
      channels = set_channel ch (record (ps.channels ch) { messages = later }) ps.channels;
    },
    some message,
  )
]
