-- ===== src/Storage/Compaction/Revival.antt =====
-- A compaction drops a key that has expired, and with it the expiry that a later `Put` leaves in place.
use fast_kv_a_lightweight_ke.Base.{◌≡◌, ap, ◌∙◌, true, none, arith, ok, err, key_expired, Failure}
use fast_kv_a_lightweight_ke.Base.Bytes.{Bytes, bytes_key, bytes_eq_refl}
use fast_kv_a_lightweight_ke.Base.Words.{Int64}
use fast_kv_a_lightweight_ke.Storage.Memory.{get}
use fast_kv_a_lightweight_ke.Storage.Memory.View.{is_expired, answer, get-answer, expiry_at}
use fast_kv_a_lightweight_ke.Storage.Wal.RoundTrip.{IsEncodable}
use fast_kv_a_lightweight_ke.Storage.Engine.{put, put_record, Io, Storage}
use fast_kv_a_lightweight_ke.Storage.Engine.Logging.{restart}
use fast_kv_a_lightweight_ke.Storage.Engine.Recovery.{IsDurable}
use fast_kv_a_lightweight_ke.Storage.Engine.Entries.{Entry, act}
use fast_kv_a_lightweight_ke.Storage.Compaction.{compact}
use fast_kv_a_lightweight_ke.Storage.Compaction.Life.{entry-restart-put, Lasting, durable-Lasting}
use fast_kv_a_lightweight_ke.Storage.Compaction.Rounds.{
  Round, RoundGoesWell, compact-Lasting, compact-shards, expired_is_gone, is_expired_stays,
}
use fast_kv_a_lightweight_ke.Storage.Engine.Limits.{zero_is_no_expiry}
use fast_kv_a_lightweight_ke.Storage.Engine.Writes.{put_whole}
use fast_kv_a_lightweight_ke.Storage.Memory.Reads.{get-put_plain}

-- A key of a durable store has expired; a compaction goes well, and then a `Put` of the key whose
-- arguments fit and whose write goes well. The store reads the key as expired ever after, and a restart
-- reads what was put.
pub compaction_revives :
    (filename : Bytes) (s : Storage) (c : Round) (later : Int64) (bucket key value : Bytes)
    (io : Io)
    → IsDurable filename s
    → RoundGoesWell later c
    → get c.now s.shards bucket key ≡ err key_expired
    → io.fault ≡ none
    → IsEncodable (put_record bucket key value 0)
    → let compacted : Storage = compact c.buckets_order c.keys_order c.now c.io s in
      let done : Storage × Failure = put compacted bucket key value io in
      (done.1 ≡ none)
      × (get later done.0.shards bucket key ≡ err key_expired)
      × (get later (restart done.0.disk filename).0.shards bucket key ≡ ok value)
unfolding act
compaction_revives filename s c later bucket key value io d well expired whole fits =
    let compacted : Storage = compact c.buckets_order c.keys_order c.now c.io s in
    let done : Storage × Failure = put compacted bucket key value io in
    let before : Lasting filename later s = durable-Lasting filename later s d in
    let kept : Lasting filename later compacted = compact-Lasting filename later s c well before in
    let over : is_expired c.now (expiry_at s.shards bucket key) ≡ true =
      ground (arith, expired, get-answer c.now s.shards bucket key) in
    let entry = entry-restart-put filename later compacted kept bucket key value io whole fits in
    let gone = expired_is_gone filename later s c well before bucket key over in
    let written = put_whole compacted kept.logs bucket key value io whole in
    let same : compacted.shards ≡ s.shards = compact-shards c s in
    (
      ap (λ x. x.1) written,
      ground (
        arith,
        ap (λ x. x.0.shards) written,
        ap (λ x. get c.now x bucket key) same,
        expired,
        get-answer later s.shards bucket key,
        over,
        is_expired_stays c.now later (expiry_at s.shards bucket key) well.in_time,
        get-put_plain later s.shards bucket key value 0 zero_is_no_expiry,
        same,
      ),
      get-answer later (restart done.0.disk filename).0.shards bucket key
          ∙ ap (λ (x : Entry). answer later x.0 x.1)
              (entry ∙ ap (λ x. act bucket key x (put_record bucket key value 0)) gone)
          ∙ ground (arith, bytes_eq_refl bucket, bytes_eq_refl key, zero_is_no_expiry),
    )
