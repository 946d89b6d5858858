-- ===== src/Tests/Log.antt =====
-- The bytes of the log of kv-distributed/internal/storage/wal.go on small records.
use fast_kv_a_lightweight_ke.Base.{◌≡◌, refl, none, List, [], ◌∷◌, ◌++◌, foldl, arith}
use fast_kv_a_lightweight_ke.Base.Bytes.{Bytes, text}
use fast_kv_a_lightweight_ke.Storage.Memory.{new_shards}
use fast_kv_a_lightweight_ke.Storage.Wal.{LogRecord, le_bytes, fill_buffer, replay}
use fast_kv_a_lightweight_ke.Storage.Wal.Encode.{encode, fill_buffer-encode}
use fast_kv_a_lightweight_ke.Storage.Wal.RoundTrip.{IsEncodable, encode_all, replay-encode_all}
use fast_kv_a_lightweight_ke.Storage.Wal.Torn.{EndsAtEnd, replay-EndsAtEnd, replay_torn}
use fast_kv_a_lightweight_ke.Storage.Engine.{apply_record, put_record, del_record}

abbrev put_ann : LogRecord
put_ann = put_record (text "users") (text "ann") (text "1") 50

abbrev del_ann : LogRecord
del_ann = del_record (text "users") (text "ann")

put_ann-IsEncodable : IsEncodable put_ann
put_ann-IsEncodable = record {
  bucket_fits = omega arith;
  key_fits = omega arith;
  value_fits = omega arith;
  ttl_fits = omega arith;
}

del_ann-IsEncodable : IsEncodable del_ann
del_ann-IsEncodable = record {
  bucket_fits = omega arith;
  key_fits = omega arith;
  value_fits = omega arith;
  ttl_fits = omega arith;
}

abbrev two_records : List LogRecord
two_records = put_ann ∷ del_ann ∷ []

fill_buffer-encode_example : fill_buffer put_ann ≡ encode put_ann
fill_buffer-encode_example = fill_buffer-encode put_ann

-- The 26 bytes of a record.
bytes_of_put_ann :
    fill_buffer put_ann
    ≡ 1 ∷ 5 ∷ 0 ∷ text "users"
      ++ 3 ∷ 0 ∷ text "ann"
      ++ 50 ∷ 0 ∷ 0 ∷ 0 ∷ 0 ∷ 0 ∷ 0 ∷ 0 ∷ 1 ∷ 0 ∷ 0 ∷ 0 ∷ text "1"
unfolding fill_buffer
bytes_of_put_ann = refl

replay-encode_all_example :
    replay apply_record (encode_all two_records) new_shards 0
    ≡ record { state = foldl apply_record new_shards two_records; op_count = 2; failure = none }
replay-encode_all_example =
    replay-encode_all apply_record two_records new_shards 0
      (put_ann-IsEncodable, (del_ann-IsEncodable, tt))

replay-EndsAtEnd_example :
    EndsAtEnd (replay apply_record (1 ∷ 5 ∷ 0 ∷ text "us") new_shards 0).failure
replay-EndsAtEnd_example = replay-EndsAtEnd apply_record (1 ∷ 5 ∷ 0 ∷ text "us") new_shards 0

abbrev part : Bytes
part = 2 ∷ 5 ∷ 0 ∷ text "user"

abbrev missing_part : Bytes
missing_part = 3 ∷ 0 ∷ text "ann" ++ 0 ∷ 0 ∷ 0 ∷ 0 ∷ 0 ∷ 0 ∷ 0 ∷ 0 ∷ 0 ∷ 0 ∷ 0 ∷ 0 ∷ []

replay_torn_example :
    ((replay apply_record (encode_all (put_ann ∷ []) ++ part) new_shards 0).state
      ≡ foldl apply_record new_shards (put_ann ∷ []))
    × ((replay apply_record (encode_all (put_ann ∷ []) ++ part) new_shards 0).op_count ≡ 1)
unfolding encode le_bytes
replay_torn_example =
    replay_torn apply_record (put_ann ∷ []) del_ann 115 part missing_part new_shards 0
      (put_ann-IsEncodable, tt) del_ann-IsEncodable refl
