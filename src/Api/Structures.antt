-- ===== src/Api/Structures.antt =====
-- The handlers of the RPC server for the data structures.
use fast_kv_a_lightweight_ke.Base.{some, none, Result, ok, err, ◌>>=◌}
use fast_kv_a_lightweight_ke.Base.Bytes.{Bytes, bytes_key}
use fast_kv_a_lightweight_ke.Base.Dict.{RangeOrder}
use fast_kv_a_lightweight_ke.Service.KvService
use fast_kv_a_lightweight_ke.Service.KvService.{KvService}
use fast_kv_a_lightweight_ke.Api.{
  Request, Response, KvServer, empty_response, ok_response, with_message,
}

unfoldable pub set_add : Request → KvServer → KvServer × Result Response
set_add req s =
    (record s { service = KvService.set_add req.set_name req.value_str s.service }, ok ok_response)

unfoldable pub set_remove : Request → KvServer → KvServer × Result Response
set_remove req s =
    let (service, failure) = KvService.set_remove req.set_name req.value_str s.service in
    elim failure [
      | some e ↦ (record s { service = service }, err e)
      | none ↦ (record s { service = service }, ok ok_response)
    ]

unfoldable pub set_list : RangeOrder Bytes (Unit {0}) → Request → KvServer → Result Response
set_list order req s = do
  answer ← KvService.set_list order req.set_name s.service
  ok (record empty_response { list = answer })

unfoldable pub sorted_list_add : Request → KvServer → KvServer × Result Response
sorted_list_add req s = (
  record s { service = KvService.sorted_list_add req.list_name req.value_str s.service },
  ok ok_response,
)

unfoldable pub sorted_list_get : Request → KvServer → Result Response
sorted_list_get req s = do
  answer ← KvService.sorted_list_get req.list_name s.service
  ok (record empty_response { list = answer })

unfoldable pub map_put : Request → KvServer → KvServer × Result Response
map_put req s = (
  record s { service = KvService.map_put req.map_name req.key req.value_str s.service },
  ok ok_response,
)

unfoldable pub map_get : Request → KvServer → Result Response
map_get req s = do
  answer ← KvService.map_get req.map_name req.key s.service
  ok (record empty_response { data_value = some answer })

unfoldable pub queue_push : Request → KvServer → KvServer × Result Response
queue_push req s = (
  record s { service = KvService.queue_push req.queue_name req.value_str s.service },
  ok ok_response,
)

unfoldable pub queue_pop : Request → KvServer → KvServer × Result Response
queue_pop req s =
    let (service, answer) = KvService.queue_pop req.queue_name s.service in
    (record s { service = service }, answer >>= (λ val. ok (with_message val)))

unfoldable pub queue_peek : Request → KvServer → Result Response
queue_peek req s = do
  answer ← KvService.queue_peek req.queue_name s.service
  ok (with_message answer)

unfoldable pub stack_push : Request → KvServer → KvServer × Result Response
stack_push req s = (
  record s { service = KvService.stack_push req.stack_name req.value_str s.service },
  ok ok_response,
)

unfoldable pub stack_pop : Request → KvServer → KvServer × Result Response
stack_pop req s =
    let (service, answer) = KvService.stack_pop req.stack_name s.service in
    (record s { service = service }, answer >>= (λ val. ok (with_message val)))

unfoldable pub stack_peek : Request → KvServer → Result Response
stack_peek req s = do
  answer ← KvService.stack_peek req.stack_name s.service
  ok (with_message answer)
