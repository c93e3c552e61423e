-- ===== src/Json/Flag/RoundTrip.antt =====
-- What `toJSON` writes of `Flag`, `GetFlagRequest`, `CreateFlagRequest`, `UpdateFlagRequest`,
-- `UpdateFlagResponse`, `ListFlagsRequest`, `DeleteFlagRequest`, `DeleteFlagResponse`,
-- `GetFlagResponse`, `CreateFlagResponse`, `ListFlagsResponse`, `fromJSON` reads back.
use opentelemetry_demo_mb3r.Prelude.{◌≡◌, refl, ap, ◌∙◌, some}
use opentelemetry_demo_mb3r.Proto.{
  CreateFlagRequest, CreateFlagResponse, DeleteFlagRequest, Flag, GetFlagRequest, GetFlagResponse,
  ListFlagsResponse, UpdateFlagRequest,
}
use opentelemetry_demo_mb3r.Json.{Conversions}
use opentelemetry_demo_mb3r.Json.Fields.{
  get-fields_of, as_text-text_value, as_flag-flag_value, as_message-message_value,
  as_messages-messages_value,
}
use opentelemetry_demo_mb3r.Json.Flag.{
  from_json_flag, to_json_flag, read_json_flag, flag_fields, from_json_get_flag_request,
  to_json_get_flag_request, read_json_get_flag_request, get_flag_request_fields,
  from_json_create_flag_request, to_json_create_flag_request, read_json_create_flag_request,
  create_flag_request_fields, from_json_update_flag_request, to_json_update_flag_request,
  read_json_update_flag_request, update_flag_request_fields, from_json_update_flag_response,
  to_json_update_flag_response, from_json_list_flags_request, to_json_list_flags_request,
  from_json_delete_flag_request, to_json_delete_flag_request, read_json_delete_flag_request,
  delete_flag_request_fields, from_json_delete_flag_response, to_json_delete_flag_response,
  from_json_get_flag_response, to_json_get_flag_response, read_json_get_flag_response,
  get_flag_response_fields, from_json_create_flag_response, to_json_create_flag_response,
  read_json_create_flag_response, create_flag_response_fields, from_json_list_flags_response,
  to_json_list_flags_response, read_json_list_flags_response, list_flags_response_fields,
}

pub from_json_flag-to_json_flag :
    (c : Conversions) (m : Flag) → from_json_flag c (to_json_flag m) ≡ some m
unfolding from_json_flag to_json_flag
from_json_flag-to_json_flag c m =
    ap (read_json_flag c) (get-fields_of (flag_fields m))
    ∙ rw
        (
          as_text-text_value c m.name,
          as_text-text_value c m.description,
          as_flag-flag_value m.enabled,
        )
        refl

pub from_json_get_flag_request-to_json_get_flag_request :
    (c : Conversions) (m : GetFlagRequest)
    → from_json_get_flag_request c (to_json_get_flag_request m) ≡ some m
unfolding from_json_get_flag_request to_json_get_flag_request
from_json_get_flag_request-to_json_get_flag_request c m =
    ap (read_json_get_flag_request c) (get-fields_of (get_flag_request_fields m))
    ∙ rw (as_text-text_value c m.name) refl

pub from_json_create_flag_request-to_json_create_flag_request :
    (c : Conversions) (m : CreateFlagRequest)
    → from_json_create_flag_request c (to_json_create_flag_request m) ≡ some m
unfolding from_json_create_flag_request to_json_create_flag_request
from_json_create_flag_request-to_json_create_flag_request c m =
    ap (read_json_create_flag_request c) (get-fields_of (create_flag_request_fields m))
    ∙ rw
        (
          as_text-text_value c m.name,
          as_text-text_value c m.description,
          as_flag-flag_value m.enabled,
        )
        refl

pub from_json_update_flag_request-to_json_update_flag_request :
    (c : Conversions) (m : UpdateFlagRequest)
    → from_json_update_flag_request c (to_json_update_flag_request m) ≡ some m
unfolding from_json_update_flag_request to_json_update_flag_request
from_json_update_flag_request-to_json_update_flag_request c m =
    ap (read_json_update_flag_request c) (get-fields_of (update_flag_request_fields m))
    ∙ rw (as_text-text_value c m.name, as_flag-flag_value m.enabled) refl

pub from_json_update_flag_response-to_json_update_flag_response :
    (c : Conversions) (m : Unit {0})
    → from_json_update_flag_response c (to_json_update_flag_response m) ≡ some m
unfolding from_json_update_flag_response to_json_update_flag_response
from_json_update_flag_response-to_json_update_flag_response c m = refl

pub from_json_list_flags_request-to_json_list_flags_request :
    (c : Conversions) (m : Unit {0})
    → from_json_list_flags_request c (to_json_list_flags_request m) ≡ some m
unfolding from_json_list_flags_request to_json_list_flags_request
from_json_list_flags_request-to_json_list_flags_request c m = refl

pub from_json_delete_flag_request-to_json_delete_flag_request :
    (c : Conversions) (m : DeleteFlagRequest)
    → from_json_delete_flag_request c (to_json_delete_flag_request m) ≡ some m
unfolding from_json_delete_flag_request to_json_delete_flag_request
from_json_delete_flag_request-to_json_delete_flag_request c m =
    ap (read_json_delete_flag_request c) (get-fields_of (delete_flag_request_fields m))
    ∙ rw (as_text-text_value c m.name) refl

pub from_json_delete_flag_response-to_json_delete_flag_response :
    (c : Conversions) (m : Unit {0})
    → from_json_delete_flag_response c (to_json_delete_flag_response m) ≡ some m
unfolding from_json_delete_flag_response to_json_delete_flag_response
from_json_delete_flag_response-to_json_delete_flag_response c m = refl

pub from_json_get_flag_response-to_json_get_flag_response :
    (c : Conversions) (m : GetFlagResponse)
    → from_json_get_flag_response c (to_json_get_flag_response m) ≡ some m
unfolding from_json_get_flag_response to_json_get_flag_response to_json_flag
from_json_get_flag_response-to_json_get_flag_response c m =
    ap (read_json_get_flag_response c) (get-fields_of (get_flag_response_fields m))
    ∙ rw
        (as_message-message_value (from_json_flag c) to_json_flag (from_json_flag-to_json_flag c)
          (λ m. tt) m.flag)
        refl

pub from_json_create_flag_response-to_json_create_flag_response :
    (c : Conversions) (m : CreateFlagResponse)
    → from_json_create_flag_response c (to_json_create_flag_response m) ≡ some m
unfolding from_json_create_flag_response to_json_create_flag_response to_json_flag
from_json_create_flag_response-to_json_create_flag_response c m =
    ap (read_json_create_flag_response c) (get-fields_of (create_flag_response_fields m))
    ∙ rw
        (as_message-message_value (from_json_flag c) to_json_flag (from_json_flag-to_json_flag c)
          (λ m. tt) m.flag)
        refl

pub from_json_list_flags_response-to_json_list_flags_response :
    (c : Conversions) (m : ListFlagsResponse)
    → from_json_list_flags_response c (to_json_list_flags_response m) ≡ some m
unfolding from_json_list_flags_response to_json_list_flags_response to_json_flag
from_json_list_flags_response-to_json_list_flags_response c m =
    ap (read_json_list_flags_response c) (get-fields_of (list_flags_response_fields m))
    ∙ rw
        (as_messages-messages_value (from_json_flag c) to_json_flag (from_json_flag-to_json_flag c)
          m.flag)
        refl
