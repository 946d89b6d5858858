-- ===== src/Service/PubSub/Closing.antt =====
-- `Unsubscribe`.
use fast_kv_a_lightweight_ke.Base.{
  ℕ, ◌<◌, ◌≡◌, ◌≢◌, refl, ap, ◌∙◌, Bool, true, false, ◌&&◌, some, [], ◌∷◌, ◌==◌, ==_iff, is_some,
  nat_eq, if◌then◌else◌, arith, inl, inr, Bool-cases, Option-cases, subst, ◌⊎◌,
}
use fast_kv_a_lightweight_ke.Base.Bytes.{Bytes, bytes_key, bytes_eq, bytes_eq_iff, bytes_eq_refl}
use fast_kv_a_lightweight_ke.Base.Dict.{
  Dict, lookup, insert, remove, lookup-insert, lookup-remove, NodupKeys, NodupKeys-remove,
}
use fast_kv_a_lightweight_ke.Service.PubSub.{
  PubSub, subscribers_of, set_channel, close, drop_empty, unsubscribe,
}
use fast_kv_a_lightweight_ke.Service.PubSub.Invariant.{
  is_subscribed, IsWellFormed, subscribers_of-insert,
}

module _ (name : Bytes) (subs : Dict ℕ Bool) (ps : PubSub) where
  -- Dropping an empty map shows nowhere but in the number of names.
  subscribers_of-drop_empty :
      (other : Bytes)
      → lookup name ps.subscribers ≡ some subs
      → subscribers_of other (drop_empty name subs ps) ≡ subscribers_of other ps
  unfolding drop_empty subscribers_of
  subscribers_of-drop_empty other found =
      elim subs
          as (λ m.
            lookup name ps.subscribers ≡ some m
            → subscribers_of other (drop_empty name m ps) ≡ subscribers_of other ps) [
              | [] ↦ λ e.
                  ground
                    (arith, e, lookup-remove name other ps.subscribers, bytes_eq_iff name other)
              | entry ∷ rest ↦ λ e. refl
            ]
        found

  kept-drop_empty :
      ((other : Bytes) → bytes_eq name other ≡ false → lookup other ps.subscribers ≢ some [])
      → lookup name ps.subscribers ≡ some subs
      → (other : Bytes) → lookup other (drop_empty name subs ps).subscribers ≢ some []
  unfolding drop_empty
  kept-drop_empty kept found other =
      elim subs
          as (λ m.
            lookup name ps.subscribers ≡ some m
            → lookup other (drop_empty name m ps).subscribers ≢ some []) [
              | [] ↦
                  λ e h. ground (arith, e, h, kept other, lookup-remove name other ps.subscribers)
              | entry ∷ rest ↦ λ e h. ground (arith, e, h, kept other, bytes_eq_iff name other)
            ]
        found

  rest-drop_empty :
      ((drop_empty name subs ps).channels ≡ ps.channels)
      × ((drop_empty name subs ps).next ≡ ps.next)
      × ((drop_empty name subs ps).panicked ≡ ps.panicked)
  unfolding drop_empty
  rest-drop_empty =
      elim subs
        as (λ m.
          ((drop_empty name m ps).channels ≡ ps.channels)
          × ((drop_empty name m ps).next ≡ ps.next)
          × ((drop_empty name m ps).panicked ≡ ps.panicked)) [
            | [] ↦ (refl, refl, refl)
            | entry ∷ rest ↦ (refl, refl, refl)
          ]

module _ (ps : PubSub) (wf : IsWellFormed ps) (name : Bytes) (ch : ℕ) where
  -- The state before the last test of `Unsubscribe`, for a registered channel.
  abbrev unregistered : Dict ℕ Bool → PubSub
  unregistered subs = record ps {
    subscribers = insert name (remove ch subs) ps.subscribers;
    channels = set_channel ch (record (ps.channels ch) { closed = true }) ps.channels;
  }

  unsubscribe_registered :
      (subs : Dict ℕ Bool)
      → lookup name ps.subscribers ≡ some subs
      → is_some (lookup ch subs) ≡ true
      → unsubscribe name ch ps ≡ drop_empty name (remove ch subs) (unregistered subs)
  unfolding unsubscribe close is_subscribed subscribers_of
  unsubscribe_registered subs found there = ground (arith, found, there, wf.live name ch)

  registered_cases :
      (is_subscribed name ch ps ≡ false)
      ⊎ ((subs : Dict ℕ Bool) × (lookup name ps.subscribers ≡ some subs)
          × (is_some (lookup ch subs) ≡ true))
  unfolding is_subscribed subscribers_of lookup
  registered_cases = elim (Option-cases (lookup name ps.subscribers)) [
    | inl missing ↦ inl (ground (arith, missing))
    | inr (subs, found) ↦ elim (Bool-cases (is_some (lookup ch subs))) [
      | inl there ↦ inr (subs, found, there)
      | inr absent ↦ inl (ground (arith, found, absent))
    ]
  ]

  unsubscribe_absent : is_subscribed name ch ps ≡ false → unsubscribe name ch ps ≡ ps
  unfolding unsubscribe is_subscribed subscribers_of drop_empty
  unsubscribe_absent absent = elim (Option-cases (lookup name ps.subscribers)) [
    | inl missing ↦ ground (arith, missing)
    | inr (subs, found) ↦ at_name subs found
  ]
    where
      at_name :
          (subs : Dict ℕ Bool)
          → lookup name ps.subscribers ≡ some subs
          → unsubscribe name ch ps ≡ ps
      at_name [] found = absurd (wf.kept name found)
      at_name (entry ∷ subs) found = ground (arith, found, absent)

  module _ (subs : Dict ℕ Bool) (found : lookup name ps.subscribers ≡ some subs)
      (there : is_some (lookup ch subs) ≡ true) where
    abbrev after : PubSub
    after = unregistered subs

    found_after : lookup name after.subscribers ≡ some (remove ch subs)
    found_after =
        ground (arith, lookup-insert name name (remove ch subs) ps.subscribers, bytes_eq_refl name)

    subscribers_of-unregister :
        (other : Bytes)
        → subscribers_of other (unsubscribe name ch ps)
          ≡ (if bytes_eq name other then remove ch subs else subscribers_of other ps)
    subscribers_of-unregister other =
        ap (subscribers_of other) (unsubscribe_registered subs found there)
        ∙ subscribers_of-drop_empty name (remove ch subs) after other found_after
        ∙ (unfold subscribers_of in subscribers_of-insert name other (remove ch subs) ps)

    is_subscribed-unregister :
        (other : Bytes) (j : ℕ)
        → is_subscribed other j (unsubscribe name ch ps)
          ≡ (if bytes_eq name other && (ch == j) then false else is_subscribed other j ps)
    unfolding is_subscribed subscribers_of
    is_subscribed-unregister other j = ground (
      arith,
      subscribers_of-unregister other,
      found,
      lookup-remove ch j subs,
      bytes_eq_iff name other,
    )

    rest-unregister :
        ((unsubscribe name ch ps).channels ≡ after.channels)
        × ((unsubscribe name ch ps).next ≡ ps.next)
        × ((unsubscribe name ch ps).panicked ≡ ps.panicked)
    rest-unregister =
        rw (unsubscribe_registered subs found there) (rest-drop_empty name (remove ch subs) after)

    channels-unregister :
        (j : ℕ)
        → (unsubscribe name ch ps).channels j
          ≡ (if ch == j then record (ps.channels j) { closed = true } else ps.channels j)
    unfolding set_channel
    channels-unregister j = ground (arith, ap (λ f. f j) rest-unregister.0, ==_iff ch j)

    subs_here : subscribers_of name ps ≡ subs
    unfolding subscribers_of
    subs_here = ground (arith, found)

    registered_here : is_subscribed name ch ps ≡ true
    unfolding is_subscribed
    registered_here = ground (arith, subs_here, there)

    unregister-nodup : (other : Bytes) → NodupKeys (subscribers_of other (unsubscribe name ch ps))
    unregister-nodup other = elim (Bool-cases (bytes_eq name other)) [
      | inl same ↦
          rw (subscribers_of-unregister other, same)
            (NodupKeys-remove ch subs (subst NodupKeys subs_here (wf.nodup name)))
      | inr away ↦ rw (subscribers_of-unregister other, away) (wf.nodup other)
    ]

    unregister-kept : (other : Bytes) → lookup other (unsubscribe name ch ps).subscribers ≢ some []
    unregister-kept = rw (unsubscribe_registered subs found there) (
        kept-drop_empty name (remove ch subs) after
          (λ other away h. ground (
            arith,
            away,
            h,
            wf.kept other,
            lookup-insert name other (remove ch subs) ps.subscribers,
          ))
          found_after)

    unregister-live :
        (other : Bytes) (j : ℕ)
        → is_subscribed other j (unsubscribe name ch ps) ≡ true
        → (j < ps.next) × (((unsubscribe name ch ps).channels j).closed ≡ false)
    unregister-live other j h = ground (
      arith,
      is_subscribed-unregister other j,
      channels-unregister j,
      wf.live other j,
      wf.one_name name other ch registered_here,
      ==_iff ch j,
      bytes_eq_iff name other,
    )

    unregister-IsWellFormed : IsWellFormed (unsubscribe name ch ps)
    unregister-IsWellFormed = record {
      nodup = unregister-nodup;
      live = λ other j h. rw rest-unregister.1 (unregister-live other j h);
      one_name = λ n1 n2 j h1 h2. ground (
        arith,
        is_subscribed-unregister n1 j,
        is_subscribed-unregister n2 j,
        wf.one_name n1 n2 j,
      );
      bounded = λ j. ground (arith, channels-unregister j, wf.bounded j);
      kept = unregister-kept;
      calm = rest-unregister.2 ∙ wf.calm;
    }

  -- After it the channel is closed if it was registered under the name, and is registered no more;
  -- nothing else has changed.
  pub unsubscribe_lem :
      ((other : Bytes) (j : ℕ)
        → is_subscribed other j (unsubscribe name ch ps)
          ≡ (if bytes_eq name other && (ch == j) then false else is_subscribed other j ps))
      × ((j : ℕ)
          → (unsubscribe name ch ps).channels j ≡ (
              if is_subscribed name ch ps && (ch == j)
              then record (ps.channels j) { closed = true }
              else ps.channels j))
  unsubscribe_lem = elim registered_cases [
    | inl absent ↦ (
      λ other j.
          ground (arith, unsubscribe_absent absent, absent, bytes_eq_iff name other, ==_iff ch j),
      λ j. ground (arith, unsubscribe_absent absent, absent),
    )
    | inr (subs, found, there) ↦ (
      is_subscribed-unregister subs found there,
      λ j. ground (arith, channels-unregister subs found there j, registered_here subs found there),
    )
  ]

  -- An unsubscription keeps the state well formed.
  pub unsubscribe-IsWellFormed : IsWellFormed (unsubscribe name ch ps)
  unsubscribe-IsWellFormed = elim registered_cases [
    | inl absent ↦ rw (unsubscribe_absent absent) wf
    | inr (subs, found, there) ↦ unregister-IsWellFormed subs found there
  ]
