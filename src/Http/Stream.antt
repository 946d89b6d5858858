-- ===== src/Http/Stream.antt =====
-- The loop of the route /subscribe of kv-distributed/cmd/http-server/main.go, on the channels of the
-- service.
use fast_kv_a_lightweight_ke.Base.{
  ℕ, zero, suc, ◌≤◌, ◌≡◌, refl, ap, ◌∙◌, Bool, true, false, Option, none, some, List, [], ◌∷◌, ◌++◌,
  length, take, take_whole, map, nat_eq, arith,
}
use fast_kv_a_lightweight_ke.Base.Bytes.{Bytes, bytes_key, text, bytes_eq_refl}
use fast_kv_a_lightweight_ke.Base.Dict.{RangeOrder}
use fast_kv_a_lightweight_ke.Service.PubSub.{
  capacity, PubSub, set_channel, subscribers_of, subscribe, unsubscribe, receive,
}
use fast_kv_a_lightweight_ke.Service.PubSub.Invariant.{
  is_subscribed, IsWellFormed, is_subscribed-subscribe, subscribe-IsWellFormed,
}
use fast_kv_a_lightweight_ke.Service.PubSub.Closing.{unsubscribe_lem, unsubscribe-IsWellFormed}
use fast_kv_a_lightweight_ke.Service.PubSub.Runs.{
  receive-IsWellFormed, publish_all, publish_all-IsWellFormed, is_subscribed-publish_all,
  messages-publish_all,
}

-- What one `select` of the loop finds.
pub data Turn : Type 0 where
  notified message_ready : Turn

-- `"data: " + msg + "\n\n"`
abbrev pub event : Bytes → Bytes
event msg = text "data: " ++ msg ++ 10 ∷ 10 ∷ []

-- The turns of the loop, and the deferred `Unsubscribe`; the events that are written. A turn that
-- finds no message waits, and nothing happens.
unfoldable pub stream_loop : Bytes → ℕ → List Turn → PubSub → PubSub × List Bytes
stream_loop channel msg_chan [] ps = (ps, [])
stream_loop channel msg_chan (notified ∷ turns) ps = (unsubscribe channel msg_chan ps, [])
stream_loop channel msg_chan (message_ready ∷ turns) ps =
    let received : PubSub × Option Bytes = receive msg_chan ps in
    let rest : PubSub × List Bytes = stream_loop channel msg_chan turns received.0 in
    elim received.1 [ none ↦ rest | some msg ↦ (rest.0, event msg ∷ rest.1) ]

-- So many turns with a message, and then the end of the request.
abbrev pub turns_of : ℕ → List Turn
turns_of zero = notified ∷ []
turns_of (suc n) = message_ready ∷ turns_of n

module _ (msg_chan : ℕ) (ps : PubSub) (msg : Bytes) (later : List Bytes)
    (waiting : (ps.channels msg_chan).messages ≡ msg ∷ later) where
  receive-waiting : receive msg_chan ps ≡ (
    record ps {
      channels =
          set_channel msg_chan (record (ps.channels msg_chan) { messages = later }) ps.channels;
    },
    some msg,
  )
  unfolding receive
  receive-waiting = rw (waiting, receive) refl

  messages-receive : ((receive msg_chan ps).0.channels msg_chan).messages ≡ later
  messages-receive = rw receive-waiting (unfold set_channel in ground arith)

  is_subscribed-receive :
      (channel : Bytes)
      → is_subscribed channel msg_chan (receive msg_chan ps).0 ≡ is_subscribed channel msg_chan ps
  unfolding is_subscribed subscribers_of
  is_subscribed-receive channel = rw receive-waiting refl

  stream_loop-receive :
      (channel : Bytes) (turns : List Turn)
      → stream_loop channel msg_chan (message_ready ∷ turns) ps ≡ (
        (stream_loop channel msg_chan turns (receive msg_chan ps).0).0,
        event msg ∷ (stream_loop channel msg_chan turns (receive msg_chan ps).0).1,
      )
  unfolding stream_loop
  stream_loop-receive channel turns =
      rw (ap (λ (x : PubSub × Option Bytes). x.1) receive-waiting, stream_loop) refl

-- The end of a stream.
abbrev pub Ended : Bytes → ℕ → PubSub → Type 0
Ended channel msg_chan ps =
    (is_subscribed channel msg_chan ps ≡ false)
    × ((ps.channels msg_chan).closed ≡ true)
    × (ps.panicked ≡ false)

stream_loop-drains :
    (channel : Bytes) (msg_chan : ℕ) (messages : List Bytes) (ps : PubSub)
    → IsWellFormed ps
    → is_subscribed channel msg_chan ps ≡ true
    → (ps.channels msg_chan).messages ≡ messages
    → let done : PubSub × List Bytes =
        stream_loop channel msg_chan (turns_of (length messages)) ps in
      (done.1 ≡ map event messages) × Ended channel msg_chan done.0
unfolding stream_loop
stream_loop-drains channel msg_chan [] ps wf there waiting =
    let closing = unsubscribe_lem ps wf channel msg_chan in
    let calm = (unsubscribe-IsWellFormed ps wf channel msg_chan).calm in
    (
      refl,
      (
        ground (arith, closing.0 channel msg_chan, bytes_eq_refl channel),
        ground (arith, closing.1 msg_chan, there),
        calm,
      ),
    )
stream_loop-drains channel msg_chan (msg ∷ later) ps wf there waiting =
    let after : PubSub = (receive msg_chan ps).0 in
    let rest =
      stream_loop-drains channel msg_chan later after (receive-IsWellFormed msg_chan ps wf)
        (is_subscribed-receive msg_chan ps msg later waiting channel ∙ there)
        (messages-receive msg_chan ps msg later waiting) in
    rw (stream_loop-receive msg_chan ps msg later waiting channel (turns_of (length later)))
      (ap (◌∷◌ (event msg)) rest.0, rest.1)

fresh :
    (channel : Bytes) (ps : PubSub)
    → ((subscribe channel ps).0.channels (subscribe channel ps).1).messages ≡ []
unfolding subscribe set_channel
fresh channel ps = ground arith

number-subscribe : (channel : Bytes) (ps : PubSub) → (subscribe channel ps).1 ≡ ps.next
unfolding subscribe
number-subscribe channel ps = refl

is_subscribed-own :
    (channel : Bytes) (ps : PubSub)
    → IsWellFormed ps
    → is_subscribed channel (subscribe channel ps).1 (subscribe channel ps).0 ≡ true
is_subscribed-own channel ps wf = ground (
  arith,
  number-subscribe channel ps,
  is_subscribed-subscribe ps wf channel channel (subscribe channel ps).1,
  bytes_eq_refl channel,
)

-- A client that subscribes over HTTP: of messages that are published on its channel afterwards, a
-- hundred at most, each is written to its stream after so many turns of the loop that find one, in
-- the order they were published; when its request ends, its channel is closed and registered no more.
pub stream_delivers :
    (order : RangeOrder ℕ Bool) (channel : Bytes) (messages : List Bytes) (ps : PubSub)
    → IsWellFormed ps
    → length messages ≤ capacity
    → let subscribed : PubSub × ℕ = subscribe channel ps in
      let published : PubSub = publish_all order channel messages subscribed.0 in
      let done : PubSub × List Bytes =
        stream_loop channel subscribed.1 (turns_of (length messages)) published in
      (done.1 ≡ map event messages) × Ended channel subscribed.1 done.0
stream_delivers order channel messages ps wf few =
    let ps1 : PubSub = (subscribe channel ps).0 in
    let ch : ℕ = (subscribe channel ps).1 in
    let wf1 : IsWellFormed ps1 = subscribe-IsWellFormed ps wf channel in
    let there : is_subscribed channel ch ps1 ≡ true = is_subscribed-own channel ps wf in
    let waiting =
      messages-publish_all order channel ch messages ps1 wf1 there
      ∙ ap (λ front. take capacity (front ++ messages)) (fresh channel ps)
      ∙ take_whole capacity messages few in
    stream_loop-drains channel ch messages (publish_all order channel messages ps1)
      (publish_all-IsWellFormed order channel messages ps1 wf1)
      (is_subscribed-publish_all order channel channel ch messages ps1 wf1 ∙ there) waiting
