-- ===== src/Api/JsonBridge.antt =====
-- `convertResponse` and the wrappers for the HTTP bridge of kv-distributed/internal/api/server.go.
use fast_kv_a_lightweight_ke.Base.{
  nat_eq, ◌≡◌, refl, Bool, true, false, not, ◌&&◌, is_some, Option, none, some, List, [], ◌∷◌,
  if◌then◌else◌, Result, ok, err, Failure, arith,
}
use fast_kv_a_lightweight_ke.Base.Bytes.{Bytes, bytes_key, bytes_eq, text}
use fast_kv_a_lightweight_ke.Base.Dict.{Dict, RangeOrder, lookup, insert, lookup-insert, lookup-nil}
use fast_kv_a_lightweight_ke.Base.Words.{Int64}
use fast_kv_a_lightweight_ke.Storage.Engine.{Io}
use fast_kv_a_lightweight_ke.Api
use fast_kv_a_lightweight_ke.Api.{Request, Response, KvServer}

-- The `interface{}` values of the map.
pub data Json : Type 0 where
  bytes_json : Bytes → Json
  entries_json : Dict Bytes Bytes → Json
  strings_json : List Bytes → Json
  data_json : Option Bytes → Json
  errors_json : List Failure → Json

-- Which of the response's slices and maps are `nil` where they are empty.
pub record Nils : Type 0 where
  pub nil_value : Bool
  pub nil_values : Bool
  pub nil_keys : Bool
  pub nil_list : Bool
  pub nil_errors : Bool

-- `x != nil` on a slice or a map
abbrev pub non_nil {ℓ} : {A : Type ℓ} → Bool → List A → Bool
non_nil is_nil [] = not is_nil
non_nil is_nil (x ∷ xs) = true

-- `if … { result[name] = json }`
unfoldable pub set_if : Bool → Bytes → Json → Dict Bytes Json → Dict Bytes Json
set_if present name json result = if present then insert name json result else result

unfoldable pub convert_response : Nils → Response → Dict Bytes Json
convert_response nils resp =
    let result1 =
      set_if (non_nil nils.nil_value resp.value) (text "Value") (bytes_json resp.value) [] in
    let result2 =
      set_if (non_nil nils.nil_values resp.values) (text "Values") (entries_json resp.values)
        result1 in
    let result3 =
      set_if (non_nil nils.nil_keys resp.keys) (text "Keys") (strings_json resp.keys) result2 in
    let result4 =
      set_if (non_nil nils.nil_list resp.list) (text "List") (strings_json resp.list) result3 in
    let result5 =
      set_if (is_some resp.data_value) (text "Data") (data_json resp.data_value) result4 in
    let result6 =
      set_if (not (bytes_eq resp.message [])) (text "Message") (bytes_json resp.message) result5 in
    set_if (non_nil nils.nil_errors resp.errors) (text "Errors") (errors_json resp.errors) result6

-- A wrapper sets `*resp` from the handler's response, unless the handler fails.
abbrev pub wrapped :
    Nils → Dict Bytes Json → KvServer × Result Response → KvServer × Dict Bytes Json × Failure
wrapped nils resp (s, err e) = (s, resp, some e)
wrapped nils resp (s, ok internal_resp) = (s, convert_response nils internal_resp, none)

module _ (nils : Nils) (req : Request) (resp : Dict Bytes Json) (s : KvServer) where
  unfoldable pub http_put : Int64 → Io → KvServer × Dict Bytes Json × Failure
  http_put now io = wrapped nils resp (Api.put now io req s)

  unfoldable pub http_get : Int64 → KvServer × Dict Bytes Json × Failure
  http_get now = wrapped nils resp (s, Api.get now req s)

  unfoldable pub http_delete : Io → KvServer × Dict Bytes Json × Failure
  http_delete io = wrapped nils resp (Api.delete io req s)

  unfoldable pub http_update : Int64 → Io → KvServer × Dict Bytes Json × Failure
  http_update now io = wrapped nils resp (Api.update now io req s)

  unfoldable pub http_list : RangeOrder Bytes Bytes → Int64 → KvServer × Dict Bytes Json × Failure
  http_list order now = wrapped nils resp (s, Api.list order now req s)

-- A wrapper does to the server what its handler does.
pub wrapped_server :
    (nils : Nils) (resp : Dict Bytes Json) (done : KvServer × Result Response)
    → (wrapped nils resp done).0 ≡ done.0
wrapped_server nils resp (s, err e) = refl
wrapped_server nils resp (s, ok internal_resp) = refl

-- A reader of the map: a missing name reads as the zero value.
abbrev bytes_of : Option Json → Bytes
bytes_of (some (bytes_json bytes)) = bytes
bytes_of other = []

abbrev entries_of : Option Json → Dict Bytes Bytes
entries_of (some (entries_json entries)) = entries
entries_of other = []

abbrev strings_of : Option Json → List Bytes
strings_of (some (strings_json strings)) = strings
strings_of other = []

abbrev data_of : Option Json → Option Bytes
data_of (some (data_json data_value)) = data_value
data_of other = none

abbrev errors_of : Option Json → List Failure
errors_of (some (errors_json errors)) = errors
errors_of other = []

abbrev pub read_back : Dict Bytes Json → Response
read_back result = record {
  value = bytes_of (lookup (text "Value") result);
  values = entries_of (lookup (text "Values") result);
  keys = strings_of (lookup (text "Keys") result);
  list = strings_of (lookup (text "List") result);
  data_value = data_of (lookup (text "Data") result);
  message = bytes_of (lookup (text "Message") result);
  errors = errors_of (lookup (text "Errors") result);
  next_cursor = 0;
}

module _ (k : Bytes) (result : Dict Bytes Json) (found : Option Json)
    (below : lookup k result ≡ found) where
  lookup-set_if :
      (present : Bool) (name : Bytes) (json : Json)
      → lookup k (set_if present name json result)
        ≡ (if bytes_eq name k && present then some json else found)
  unfolding set_if
  lookup-set_if present name json = ground (arith, below, lookup-insert name k json result)

-- What the map has under any name.
abbrev field : Nils → Response → Bytes → Option Json
field nils resp k =
    if bytes_eq (text "Errors") k && non_nil nils.nil_errors resp.errors
    then some (errors_json resp.errors)
    else if bytes_eq (text "Message") k && not (bytes_eq resp.message [])
    then some (bytes_json resp.message)
    else if bytes_eq (text "Data") k && is_some resp.data_value
    then some (data_json resp.data_value)
    else if bytes_eq (text "List") k && non_nil nils.nil_list resp.list
    then some (strings_json resp.list)
    else if bytes_eq (text "Keys") k && non_nil nils.nil_keys resp.keys
    then some (strings_json resp.keys)
    else if bytes_eq (text "Values") k && non_nil nils.nil_values resp.values
    then some (entries_json resp.values)
    else if bytes_eq (text "Value") k && non_nil nils.nil_value resp.value
    then some (bytes_json resp.value)
    else none

lookup-convert_response :
    (nils : Nils) (resp : Response) (k : Bytes)
    → lookup k (convert_response nils resp) ≡ field nils resp k
unfolding convert_response
lookup-convert_response nils resp k =
    lookup-set_if k _ _
      (lookup-set_if k _ _
        (lookup-set_if k _ _
          (lookup-set_if k _ _
            (lookup-set_if k _ _
              (lookup-set_if k _ _ (lookup-set_if k [] none (lookup-nil k) _ _ _) _ _ _) _ _ _)
            _ _ _)
          _ _ _)
        _ _ _)
      _ _ _

-- A field that is left out reads as the empty value, which it has.
bytes-kept :
    (is_nil : Bool) (bytes : Bytes)
    → bytes_of (if non_nil is_nil bytes then some (bytes_json bytes) else none) ≡ bytes
bytes-kept true [] = refl
bytes-kept false [] = refl
bytes-kept is_nil (x ∷ bytes) = refl

entries-kept :
    (is_nil : Bool) (entries : Dict Bytes Bytes)
    → entries_of (if non_nil is_nil entries then some (entries_json entries) else none) ≡ entries
entries-kept true [] = refl
entries-kept false [] = refl
entries-kept is_nil (x ∷ entries) = refl

strings-kept :
    (is_nil : Bool) (strings : List Bytes)
    → strings_of (if non_nil is_nil strings then some (strings_json strings) else none) ≡ strings
strings-kept true [] = refl
strings-kept false [] = refl
strings-kept is_nil (x ∷ strings) = refl

errors-kept :
    (is_nil : Bool) (errors : List Failure)
    → errors_of (if non_nil is_nil errors then some (errors_json errors) else none) ≡ errors
errors-kept true [] = refl
errors-kept false [] = refl
errors-kept is_nil (x ∷ errors) = refl

data-kept :
    (data_value : Option Bytes)
    → data_of (if is_some data_value then some (data_json data_value) else none) ≡ data_value
data-kept none = refl
data-kept (some value) = refl

message-kept :
    (message : Bytes)
    → bytes_of (if not (bytes_eq message []) then some (bytes_json message) else none) ≡ message
message-kept [] = refl
message-kept (x ∷ message) = refl

-- Whatever is `nil`, the map that the wrappers answer says all of the response but its cursor.
pub read_back-convert_response :
    (nils : Nils) (resp : Response)
    → read_back (convert_response nils resp) ≡ record resp { next_cursor = 0 }
read_back-convert_response nils resp =
    rw
      (
        lookup-convert_response nils resp (text "Value"),
        lookup-convert_response nils resp (text "Values"),
        lookup-convert_response nils resp (text "Keys"),
        lookup-convert_response nils resp (text "List"),
        lookup-convert_response nils resp (text "Data"),
        lookup-convert_response nils resp (text "Message"),
        lookup-convert_response nils resp (text "Errors"),
        bytes-kept nils.nil_value resp.value,
        entries-kept nils.nil_values resp.values,
        strings-kept nils.nil_keys resp.keys,
        strings-kept nils.nil_list resp.list,
        data-kept resp.data_value,
        message-kept resp.message,
        errors-kept nils.nil_errors resp.errors,
      )
      refl
