-- ===== src/Storage/Compaction/Rounds.antt =====
-- One compaction, from its snapshot to its swap, and what the log keeps over it.
use fast_kv_a_lightweight_ke.Base.{
  ◌≡◌, refl, sym, ap, subst, ◌∙◌, true, false, Option, none, some, foldl, arith,
}
use fast_kv_a_lightweight_ke.Base.Bytes.{Bytes, bytes_key}
use fast_kv_a_lightweight_ke.Base.Dict.{Dict, RangeOrder}
use fast_kv_a_lightweight_ke.Base.Words.{Int64}
use fast_kv_a_lightweight_ke.Storage.Hash.{shard_count}
use fast_kv_a_lightweight_ke.Storage.Memory.{TtlInfo, Shards, new_shards}
use fast_kv_a_lightweight_ke.Storage.Memory.Invariant.{IsWellFormed, new_shards-IsWellFormed}
use fast_kv_a_lightweight_ke.Storage.Memory.View.{is_expired, expiry_at}
use fast_kv_a_lightweight_ke.Storage.Engine.{Storage, content}
use fast_kv_a_lightweight_ke.Storage.Engine.Logging.{Logs, restart}
use fast_kv_a_lightweight_ke.Storage.Engine.Entries.{entry_at, act, entry-foldl}
use fast_kv_a_lightweight_ke.Storage.Compaction.{
  abandon_compaction, CompactIo, snapshot, compact, finish_compaction, swap_log,
}
use fast_kv_a_lightweight_ke.Storage.Compaction.Snapshot.{shards_records, snapshot_lem}
use fast_kv_a_lightweight_ke.Storage.Compaction.Live.{rebuilt_lem}
use fast_kv_a_lightweight_ke.Storage.Compaction.Fits.{StoreFits, shards_records-IsEncodable}
use fast_kv_a_lightweight_ke.Storage.Compaction.Recovery.{
  CompactionGoesWell, NotBefore, expired_stays, content-finish_compaction, shards-finish_compaction,
}
use fast_kv_a_lightweight_ke.Storage.Compaction.Life.{Kept, Lasting, entry-restart}

-- One compaction: the orders of its two loops, its clock, and what becomes of its calls.
pub record Round : Type 0 where
  pub buckets_order : RangeOrder Bytes (Dict Bytes Bytes)
  pub keys_order : RangeOrder Bytes Bytes
  pub now : Int64
  pub io : CompactIo

-- The compaction goes well, opens the log again, and its clock is not after `later`.
pub record RoundGoesWell (later : Int64) (c : Round) : Type 0 where
  pub well : CompactionGoesWell c.io
  pub reopens : c.io.reopens ≡ true
  pub in_time : NotBefore c.now later

pub is_expired_stays :
    (now later : Int64) (t : Option TtlInfo)
    → NotBefore now later
    → is_expired now t ≡ true
    → is_expired later t ≡ true
is_expired_stays now later none order expired = expired
is_expired_stays now later (some t) order expired = expired_stays now later t order expired

pub compact-shards :
    (c : Round) (s : Storage)
    → (compact c.buckets_order c.keys_order c.now c.io s).shards ≡ s.shards
unfolding compact abandon_compaction
compact-shards c s =
    let tmp : Bytes = snapshot c.buckets_order c.keys_order c.now c.io s.shards in
    ground (arith, shards-finish_compaction c.io tmp s)

-- The snapshot's records keep what has not expired.
snapshot-Kept :
    (later : Int64) (c : Round) (shards : Shards) (bucket key : Bytes)
    → NotBefore c.now later
    → IsWellFormed shards
    → Kept later
        (foldl
          (act bucket key)
          (entry_at new_shards bucket key)
          (shards_records c.buckets_order c.keys_order c.now shard_count 0 shards))
        (entry_at shards bucket key)
snapshot-Kept later c shards bucket key order wf live =
    sym (
      entry-foldl bucket key new_shards
        (shards_records c.buckets_order c.keys_order c.now shard_count 0 shards)
        new_shards-IsWellFormed)
    ∙ ground (
      arith,
      live,
      rebuilt_lem c.buckets_order c.keys_order c.now shards bucket key wf,
      is_expired_stays c.now later (expiry_at shards bucket key) order,
    )

module _ (filename : Bytes) (later : Int64) (s : Storage) (c : Round) (well : RoundGoesWell later c)
    (kept : Lasting filename later s) where
  abbrev tmp : Bytes
  tmp = snapshot c.buckets_order c.keys_order c.now c.io s.shards

  compacted-Logs : (after : Logs (finish_compaction c.io tmp s)) × (after.log.filename ≡ filename)
  unfolding finish_compaction swap_log
  compacted-Logs = (
    record {
      log = record kept.logs.log { is_open = true; op_count = 0; compacting = false };
      uses = ground (arith, kept.logs.uses, well.reopens);
      opened = refl;
    },
    kept.named,
  )

  finish-Lasting : Lasting filename later (finish_compaction c.io tmp s)
  finish-Lasting =
      let same = sym (shards-finish_compaction c.io tmp s) in
      record {
        logs = compacted-Logs.0;
        named = compacted-Logs.1;
        records = shards_records c.buckets_order c.keys_order c.now shard_count 0 s.shards;
        logged =
            ap (λ f. content f (finish_compaction c.io tmp s).disk) (sym kept.named)
            ∙ content-finish_compaction c.io tmp s kept.logs well.well.renamed
            ∙ snapshot_lem c.buckets_order c.keys_order c.now c.io well.well.whole s.shards;
        fits =
            shards_records-IsEncodable c.buckets_order c.keys_order c.now shard_count 0 s.shards
              kept.formed kept.entries_fit;
        formed = subst IsWellFormed same kept.formed;
        entries_fit = subst StoreFits same kept.entries_fit;
        agrees = λ bucket key.
            subst
              (λ shards.
                Kept later
                  (foldl (act bucket key) (entry_at new_shards bucket key)
                    (shards_records c.buckets_order c.keys_order c.now shard_count 0 s.shards))
                  (entry_at shards bucket key))
              same (snapshot-Kept later c s.shards bucket key well.in_time kept.formed);
      }

  finishes : finish_compaction c.io tmp s ≡ compact c.buckets_order c.keys_order c.now c.io s
  unfolding compact
  finishes = ground (arith, well.well.tmp_opened)

  pub compact-Lasting : Lasting filename later (compact c.buckets_order c.keys_order c.now c.io s)
  compact-Lasting = subst (Lasting filename later) finishes finish-Lasting

  -- A restart after it reads nothing of a key that had expired.
  pub expired_is_gone :
      (bucket key : Bytes)
      → is_expired c.now (expiry_at s.shards bucket key) ≡ true
      → entry_at
          (restart (compact c.buckets_order c.keys_order c.now c.io s).disk filename).0.shards
          bucket
          key
        ≡ (none, none)
  unfolding finish-Lasting
  expired_is_gone bucket key expired =
      ap (λ x. entry_at (restart x.disk filename).0.shards bucket key) (sym finishes)
      ∙ entry-restart filename later (finish_compaction c.io tmp s) finish-Lasting bucket key
      ∙ sym (
          entry-foldl bucket key new_shards
            (shards_records c.buckets_order c.keys_order c.now shard_count 0 s.shards)
            new_shards-IsWellFormed)
      ∙ ground (
        arith,
        expired,
        rebuilt_lem c.buckets_order c.keys_order c.now s.shards bucket key kept.formed,
      )
