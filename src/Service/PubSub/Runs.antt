-- ===== src/Service/PubSub/Runs.antt =====
-- Sequences of subscriptions, publications and receives.
use fast_kv_a_lightweight_ke.Base.{
  ℕ, ◌≤◌, ◌≡◌, refl, sym, ap, ◌∙◌, Bool, true, false, ◌&&◌, List, [], ◌∷◌, ◌++◌, length, take,
  take_whole, take_front, nat_eq, append-nil, append_assoc, ltb, ==_iff, arith, inl, inr,
  Bool-cases,
}
use fast_kv_a_lightweight_ke.Base.Bytes.{Bytes, bytes_key}
use fast_kv_a_lightweight_ke.Base.Dict.{RangeOrder}
use fast_kv_a_lightweight_ke.Service.PubSub.{
  capacity, Channel, PubSub, new_pub_sub, subscribers_of, set_channel, subscribe, unsubscribe,
  publish, receive,
}
use fast_kv_a_lightweight_ke.Service.PubSub.Invariant.{
  is_subscribed, IsWellFormed, new_pub_sub-IsWellFormed, subscribe-IsWellFormed,
}
use fast_kv_a_lightweight_ke.Service.PubSub.Closing.{unsubscribe-IsWellFormed}
use fast_kv_a_lightweight_ke.Service.PubSub.Delivery.{
  offered, publish_lem, publish-IsWellFormed, same_subscribed,
}

pub receive-IsWellFormed : (ch : ℕ) (ps : PubSub) → IsWellFormed ps → IsWellFormed (receive ch ps).0
unfolding receive subscribers_of is_subscribed
receive-IsWellFormed ch ps wf = go (ps.channels ch).messages refl
  where
    go :
        (messages : List Bytes)
        → (ps.channels ch).messages ≡ messages
        → IsWellFormed (receive ch ps).0
    go [] waiting = rw (waiting, receive) wf
    go (message ∷ later) waiting =
        rw (waiting, receive)
          (record {
            nodup = wf.nodup;
            live = λ name j h. unfold set_channel in ground (arith, wf.live name j h, ==_iff ch j);
            one_name = wf.one_name;
            bounded = λ j.
                unfold set_channel in
                ground (arith, wf.bounded j, wf.bounded ch, ap length waiting);
            kept = wf.kept;
            calm = wf.calm;
          })

-- One call of the service or of a subscriber.
pub data Call : Type 0 where
  subscribing : Bytes → Call
  unsubscribing : Bytes → ℕ → Call
  publishing : Bytes → Bytes → Call
  receiving : ℕ → Call

module _ (order : RangeOrder ℕ Bool) where
  unfoldable pub step : PubSub → Call → PubSub
  step ps (subscribing name) = (subscribe name ps).0
  step ps (unsubscribing name ch) = unsubscribe name ch ps
  step ps (publishing name message) = publish order name message ps
  step ps (receiving ch) = (receive ch ps).0

  unfoldable pub run : List Call → PubSub → PubSub
  run [] ps = ps
  run (call ∷ calls) ps = run calls (step ps call)

  step-IsWellFormed : (ps : PubSub) (call : Call) → IsWellFormed ps → IsWellFormed (step ps call)
  unfolding step
  step-IsWellFormed ps (subscribing name) wf = subscribe-IsWellFormed ps wf name
  step-IsWellFormed ps (unsubscribing name ch) wf = unsubscribe-IsWellFormed ps wf name ch
  step-IsWellFormed ps (publishing name message) wf = publish-IsWellFormed order ps wf name message
  step-IsWellFormed ps (receiving ch) wf = receive-IsWellFormed ch ps wf

  -- Every sequence of calls, wrong unsubscriptions included, keeps the state well formed.
  pub run-IsWellFormed :
      (calls : List Call) (ps : PubSub) → IsWellFormed ps → IsWellFormed (run calls ps)
  unfolding run
  run-IsWellFormed [] ps wf = wf
  run-IsWellFormed (call ∷ calls) ps wf =
      run-IsWellFormed calls (step ps call) (step-IsWellFormed ps call wf)

  -- From a new state, no sequence of calls sends on a closed channel or closes one twice, every
  -- registered channel is open, and no buffer is over its capacity.
  pub never_panics :
      (calls : List Call)
      → ((run calls new_pub_sub).panicked ≡ false)
        × ((name : Bytes) (ch : ℕ)
            → (is_subscribed name ch (run calls new_pub_sub)
                && ((run calls new_pub_sub).channels ch).closed)
              ≡ false)
        × ((ch : ℕ) → length ((run calls new_pub_sub).channels ch).messages ≤ capacity)
  never_panics calls =
      let wf : IsWellFormed (run calls new_pub_sub) =
        run-IsWellFormed calls new_pub_sub new_pub_sub-IsWellFormed in
      (wf.calm, λ name ch. ground (arith, wf.live name ch), wf.bounded)

  -- Publications in a row on one name.
  unfoldable pub publish_all : Bytes → List Bytes → PubSub → PubSub
  publish_all name [] ps = ps
  publish_all name (message ∷ messages) ps =
      publish_all name messages (publish order name message ps)

  take-offered :
      (message : Bytes) (messages : List Bytes) (c : Channel)
      → length c.messages ≤ capacity
      → take capacity ((offered message c).messages ++ messages)
        ≡ take capacity (c.messages ++ message ∷ messages)
  take-offered message messages c fits = elim (Bool-cases (ltb (length c.messages) capacity)) [
    | inl room ↦ rw room (ap (take capacity) (append_assoc c.messages (message ∷ []) messages))
    | inr full ↦
        let at_end : length c.messages ≡ capacity = ground (arith, full) in
        rw full (
          take_front capacity c.messages messages at_end
          ∙ sym (take_front capacity c.messages (message ∷ messages) at_end))
  ]

  -- A subscriber that receives nothing meanwhile has, after any publications on its name, the
  -- messages in the order they were published, up to the first hundred that wait; later ones are
  -- dropped.
  pub messages-publish_all :
      (name : Bytes) (ch : ℕ) (messages : List Bytes) (ps : PubSub)
      → IsWellFormed ps
      → is_subscribed name ch ps ≡ true
      → ((publish_all name messages ps).channels ch).messages
        ≡ take capacity ((ps.channels ch).messages ++ messages)
  unfolding publish_all
  messages-publish_all name ch [] ps wf there = sym (
      ap (take capacity) (append-nil (ps.channels ch).messages)
      ∙ take_whole capacity (ps.channels ch).messages (wf.bounded ch))
  messages-publish_all name ch (message ∷ messages) ps wf there =
      messages-publish_all name ch messages (publish order name message ps)
        (publish-IsWellFormed order ps wf name message)
        (same_subscribed order ps wf name message name ch ∙ there)
      ∙ rw ((publish_lem order ps wf name message).0 ch, there)
          (take-offered message messages (ps.channels ch) (wf.bounded ch))

  pub publish_all-IsWellFormed :
      (name : Bytes) (messages : List Bytes) (ps : PubSub)
      → IsWellFormed ps
      → IsWellFormed (publish_all name messages ps)
  unfolding publish_all
  publish_all-IsWellFormed name [] ps wf = wf
  publish_all-IsWellFormed name (message ∷ messages) ps wf =
      publish_all-IsWellFormed name messages (publish order name message ps)
        (publish-IsWellFormed order ps wf name message)

  pub is_subscribed-publish_all :
      (name other : Bytes) (ch : ℕ) (messages : List Bytes) (ps : PubSub)
      → IsWellFormed ps
      → is_subscribed other ch (publish_all name messages ps) ≡ is_subscribed other ch ps
  unfolding publish_all
  is_subscribed-publish_all name other ch [] ps wf = refl
  is_subscribed-publish_all name other ch (message ∷ messages) ps wf =
      is_subscribed-publish_all name other ch messages (publish order name message ps)
        (publish-IsWellFormed order ps wf name message)
      ∙ same_subscribed order ps wf name message other ch
