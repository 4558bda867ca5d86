-- ===== src/Services/Examples.antt =====
-- Services of src/generic_services.cpp with concrete types, messages and type support.
use phntm_bridge.Prelude.{
  ◌≡◌, refl, ◌-◌, ◌^◌, emplace, insert_new, true, Option, some, List, [], ◌∷◌, Str, codes, find,
  contains, str_key, str_eq,
}
use phntm_bridge.Text.{split}
use phntm_bridge.Services.{
  Msg, int, object, empty, entry, int16, int32, text, primitive, message, single, many, Members,
  no_more, member, bits, chars, struct, sequence, Fields, no_field, field, nothing, element, done,
  find_member,
}
use phntm_bridge.Services.Request.{map_request}
use phntm_bridge.Services.Response.{reply, map_response}
use phntm_bridge.Services.Clean.{is_clean}
use phntm_bridge.Services.Echo.{fields_encode, map_request-map_response}
use phntm_bridge.Services.Calls.{
  Ros, ready, Event, call, clear, no_caches, call_generic_service, handle_all,
}
use phntm_bridge.Services.Protocol.{ends_once, call_generic_service-ends}
use phntm_bridge.Services.Sent.{sent_fit, call_generic_service-fits}
use phntm_bridge.Services.CacheLaws.{handle_all_known}
use phntm_bridge.Services.Plain.{plain, plain_types, plain-Keeps, fresh, fresh-fits}

-- A service that sets gains: an integer, a bounded array and a nested message.
abbrev gains : Members
gains = member (codes "name") (primitive text) single no_more no_more

abbrev set_gains : Members
set_gains = member (codes "speed") (primitive int32) single no_more (
    member (codes "limits") (primitive int16) (many true 2) no_more
      (member (codes "gains") message single gains no_more))

abbrev gain_fields : Fields
gain_fields = field (codes "speed") (bits (2 ^ 32 - 7)) (
    field (codes "limits") (sequence (element (bits 5) (element (bits 65535) nothing))) (
      field (codes "gains") (struct (field (codes "name") (chars (codes "pid")) no_field))
        no_field))

map_request-map_response_example :
    (m : Msg) × (map_response plain set_gains gain_fields ≡ reply m)
    × (map_request plain set_gains m (fresh set_gains) ≡ (gain_fields, done))
unfolding is_clean fields_encode find_member str_eq
map_request-map_response_example =
    map_request-map_response plain set_gains gain_fields (fresh set_gains) plain-Keeps refl refl
      (fresh-fits set_gains)

abbrev ros : Ros
ros = record {
  open_library = λ file. some 1;
  service_support = λ lib symbol. some (some 2);
  message_support = λ lib symbol. some set_gains;
  client_init = λ support name. some 3;
  send_request = true;
  wait_set_init = true;
  wait_set_add_client = true;
  wait = ready;
  take_response = λ fs. some fs;
}

abbrev srv_type : Str
srv_type = codes "motor/srv/SetGains"

abbrev speed_msg : Option Msg
speed_msg = some (object (entry (codes "speed") (int 7) empty))

call_generic_service-ends_example :
    ends_once (call_generic_service ros plain (codes "/gains") srv_type speed_msg no_caches).1
    ≡ true
call_generic_service-ends_example =
    call_generic_service-ends ros plain (codes "/gains") srv_type speed_msg no_caches

call_generic_service-fits_example :
    sent_fit
      (find
        (codes "/gains")
        (call_generic_service ros plain (codes "/gains") srv_type speed_msg no_caches).0.types)
      (call_generic_service ros plain (codes "/gains") srv_type speed_msg no_caches).1
    ≡ true
call_generic_service-fits_example =
    call_generic_service-fits ros plain (codes "/gains") srv_type speed_msg no_caches plain_types

abbrev calls : List Event
calls = clear ∷ call ros (codes "/gains") srv_type speed_msg ∷ []

handle_all_known_example :
    contains (codes "/gains") (handle_all plain calls no_caches).clients ≡ true
unfolding handle_all find split str_eq emplace insert_new
handle_all_known_example = handle_all_known plain calls (codes "/gains") refl
