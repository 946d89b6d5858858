-- ===== src/Service/PubSub/Delivery.antt =====
-- `Publish` and the receives of the subscribers.
use fast_kv_a_lightweight_ke.Base.{
  ℕ, ◌≡◌, refl, sym, ap, ◌∙◌, Bool, true, false, none, some, List, [], ◌∷◌, ◌++◌, length,
  length-append, ltb, ◌==◌, ==_iff, is_some, nat_eq, if◌then◌else◌, arith, inl, inr, Option-cases,
  subst,
}
use fast_kv_a_lightweight_ke.Base.Bytes.{Bytes, bytes_key}
use fast_kv_a_lightweight_ke.Base.Dict.{Dict, lookup, NodupKeys, RangeOrder}
use fast_kv_a_lightweight_ke.Service.PubSub.{
  capacity, Channel, PubSub, subscribers_of, set_channel, offer, offer_all, publish,
}
use fast_kv_a_lightweight_ke.Service.PubSub.Invariant.{is_subscribed, IsWellFormed}

-- What a publication does to one subscriber's channel: a full one misses the message.
abbrev pub offered : Bytes → Channel → Channel
offered message c =
    if ltb (length c.messages) capacity
    then record c { messages = c.messages ++ message ∷ [] }
    else c

-- A loop over these registrations meets each channel once, and none that is closed.
AllOpen : Dict ℕ Bool → PubSub → Type 0
AllOpen entries ps = (ch : ℕ) → is_some (lookup ch entries) ≡ true → (ps.channels ch).closed ≡ false

offer_open :
    (ch : ℕ) (message : Bytes) (ps : PubSub)
    → (ps.channels ch).closed ≡ false
    → ((j : ℕ)
        → (offer ch message ps).channels j
          ≡ (if ch == j then offered message (ps.channels j) else ps.channels j))
      × ((offer ch message ps).panicked ≡ ps.panicked)
unfolding offer set_channel
offer_open ch message ps is_open =
    (λ j. ground (arith, is_open, ==_iff ch j), ground (arith, is_open))

offer_kept :
    (ch : ℕ) (message : Bytes) (ps : PubSub)
    → ((offer ch message ps).subscribers ≡ ps.subscribers) × ((offer ch message ps).next ≡ ps.next)
unfolding offer
offer_kept ch message ps = (ground arith, ground arith)

closed-offer :
    (ch j : ℕ) (message : Bytes) (ps : PubSub)
    → ((offer ch message ps).channels j).closed ≡ (ps.channels j).closed
unfolding offer set_channel
closed-offer ch j message ps = ground (arith, ==_iff ch j)

offer_all_lem :
    (entries : List (ℕ × Bool)) (message : Bytes) (ps : PubSub)
    → NodupKeys entries
    → AllOpen entries ps
    → ((j : ℕ)
        → (offer_all entries message ps).channels j
          ≡ (if is_some (lookup j entries) then offered message (ps.channels j) else ps.channels j))
      × ((offer_all entries message ps).panicked ≡ ps.panicked)
      × ((offer_all entries message ps).subscribers ≡ ps.subscribers)
      × ((offer_all entries message ps).next ≡ ps.next)
unfolding offer_all lookup AllOpen
offer_all_lem [] message ps nodup is_open = (λ j. refl, refl, refl, refl)
offer_all_lem ((ch, subscribed) ∷ rest) message ps nodup is_open =
    let here : (ps.channels ch).closed ≡ false = is_open ch (ground (arith, ==_iff ch ch)) in
    let after =
      offer_all_lem rest message (offer ch message ps) nodup.1
        (λ j there. closed-offer ch j message ps ∙ is_open j (ground (arith, there))) in
    (
      λ j. ground (arith, after.0 j, (offer_open ch message ps here).0 j, nodup.0, ==_iff ch j),
      after.1 ∙ (offer_open ch message ps here).1,
      after.2 ∙ (offer_kept ch message ps).0,
      after.3 ∙ (offer_kept ch message ps).1,
    )

module _ (order : RangeOrder ℕ Bool) (ps : PubSub) (wf : IsWellFormed ps)
    (name message : Bytes) where
  -- The loop of `Publish` over the channels of a name that is there.
  publish_found :
      (subs : Dict ℕ Bool)
      → lookup name ps.subscribers ≡ some subs
      → publish order name message ps ≡ offer_all (order.visit subs) message ps
  unfolding publish
  publish_found subs found = ground (arith, found)

  publish_missing : lookup name ps.subscribers ≡ none → publish order name message ps ≡ ps
  unfolding publish
  publish_missing missing = ground (arith, missing)

  not_subscribed : lookup name ps.subscribers ≡ none → (ch : ℕ) → is_subscribed name ch ps ≡ false
  unfolding is_subscribed subscribers_of lookup
  not_subscribed missing ch = ground (arith, missing)

  subs_found :
      (subs : Dict ℕ Bool)
      → lookup name ps.subscribers ≡ some subs
      → NodupKeys subs
        × ((ch : ℕ) → is_some (lookup ch (order.visit subs)) ≡ is_subscribed name ch ps)
  unfolding is_subscribed subscribers_of
  subs_found subs found =
      let same : subscribers_of name ps ≡ subs = ground (arith, found) in
      let nodup : NodupKeys subs = subst NodupKeys same (wf.nodup name) in
      (nodup, λ ch. ground (arith, order.lookup-visit subs nodup ch, same))

  -- A publication offers the message to each channel of the name, once, in whatever order they are
  -- visited, and to no other; it registers and closes none, and does not panic.
  pub publish_lem :
      ((ch : ℕ)
        → (publish order name message ps).channels ch
          ≡ (if is_subscribed name ch ps then offered message (ps.channels ch) else ps.channels ch))
      × ((publish order name message ps).panicked ≡ false)
      × ((publish order name message ps).subscribers ≡ ps.subscribers)
      × ((publish order name message ps).next ≡ ps.next)
  publish_lem = elim (Option-cases (lookup name ps.subscribers)) [
    | inl missing ↦
        rw (publish_missing missing)
          (λ ch. ground (arith, not_subscribed missing ch), wf.calm, refl, refl)
    | inr (subs, found) ↦
        let (nodup, same) = subs_found subs found in
        let after =
          offer_all_lem (order.visit subs) message ps (order.visit-NodupKeys subs nodup)
            (unfold AllOpen in λ ch there. (wf.live name ch (sym (same ch) ∙ there)).1) in
        rw (publish_found subs found)
          (λ ch. ground (arith, after.0 ch, same ch), after.1 ∙ wf.calm, after.2, after.3)
  ]

  same_subscribers :
      (other : Bytes)
      → subscribers_of other (publish order name message ps) ≡ subscribers_of other ps
  unfolding subscribers_of
  same_subscribers other = ground (arith, publish_lem.2)

  pub same_subscribed :
      (other : Bytes) (ch : ℕ)
      → is_subscribed other ch (publish order name message ps) ≡ is_subscribed other ch ps
  unfolding is_subscribed
  same_subscribed other ch = ground (arith, same_subscribers other)

  -- A publication keeps the state well formed; no buffer grows over its capacity.
  pub publish-IsWellFormed : IsWellFormed (publish order name message ps)
  publish-IsWellFormed = record {
    nodup = λ other. rw (same_subscribers other) (wf.nodup other);
    live = λ other ch h.
        ground (arith, same_subscribed other ch, publish_lem.0 ch, publish_lem.3, wf.live other ch);
    one_name = λ n1 n2 ch h1 h2.
        wf.one_name n1 n2 ch (sym (same_subscribed n1 ch) ∙ h1) (sym (same_subscribed n2 ch) ∙ h2);
    bounded = λ ch. ground (
      arith,
      publish_lem.0 ch,
      wf.bounded ch,
      length-append (ps.channels ch).messages (message ∷ []),
    );
    kept = λ other h. wf.kept other (ap (lookup other) (sym publish_lem.2) ∙ h);
    calm = publish_lem.1;
  }
