-- ===== src/Json/Flag.antt =====
-- `toJSON` and `fromJSON` of `Flag`, `GetFlagRequest`, `CreateFlagRequest`, `UpdateFlagRequest`,
-- `UpdateFlagResponse`, `ListFlagsRequest`, `DeleteFlagRequest`, `DeleteFlagResponse`,
-- `GetFlagResponse`, `CreateFlagResponse`, `ListFlagsResponse` in src/frontend/protos/demo.ts.
pub mod RoundTrip
use opentelemetry_demo_mb3r.Prelude.{String, Option, some, List, [], ◌∷◌}
use opentelemetry_demo_mb3r.Proto.{
  CreateFlagRequest, CreateFlagResponse, DeleteFlagRequest, Flag, GetFlagRequest, GetFlagResponse,
  ListFlagsResponse, UpdateFlagRequest,
}
use opentelemetry_demo_mb3r.Json.{
  Json, object, end, Conversions, get, first_set, first_array, with_fields, ◌>>=◌, as_text,
  as_message, as_messages, as_flag, text_value, flag_value, message_value, messages_value,
  fields_of,
}

abbrev pub flag_fields : Flag → List (String × Option Json)
flag_fields m =
    ("name", text_value m.name)
    ∷ ("description", text_value m.description)
    ∷ ("enabled", flag_value m.enabled)
    ∷ []

unfoldable pub to_json_flag : Flag → Json
to_json_flag m = object (fields_of (flag_fields m))

abbrev pub get_flag_request_fields : GetFlagRequest → List (String × Option Json)
get_flag_request_fields m = ("name", text_value m.name) ∷ []

unfoldable pub to_json_get_flag_request : GetFlagRequest → Json
to_json_get_flag_request m = object (fields_of (get_flag_request_fields m))

abbrev pub create_flag_request_fields : CreateFlagRequest → List (String × Option Json)
create_flag_request_fields m =
    ("name", text_value m.name)
    ∷ ("description", text_value m.description)
    ∷ ("enabled", flag_value m.enabled)
    ∷ []

unfoldable pub to_json_create_flag_request : CreateFlagRequest → Json
to_json_create_flag_request m = object (fields_of (create_flag_request_fields m))

abbrev pub update_flag_request_fields : UpdateFlagRequest → List (String × Option Json)
update_flag_request_fields m = ("name", text_value m.name) ∷ ("enabled", flag_value m.enabled) ∷ []

unfoldable pub to_json_update_flag_request : UpdateFlagRequest → Json
to_json_update_flag_request m = object (fields_of (update_flag_request_fields m))

unfoldable pub to_json_update_flag_response : Unit {0} → Json
to_json_update_flag_response m = object end

unfoldable pub to_json_list_flags_request : Unit {0} → Json
to_json_list_flags_request m = object end

abbrev pub delete_flag_request_fields : DeleteFlagRequest → List (String × Option Json)
delete_flag_request_fields m = ("name", text_value m.name) ∷ []

unfoldable pub to_json_delete_flag_request : DeleteFlagRequest → Json
to_json_delete_flag_request m = object (fields_of (delete_flag_request_fields m))

unfoldable pub to_json_delete_flag_response : Unit {0} → Json
to_json_delete_flag_response m = object end

abbrev pub get_flag_response_fields : GetFlagResponse → List (String × Option Json)
get_flag_response_fields m = ("flag", message_value to_json_flag m.flag) ∷ []

unfoldable pub to_json_get_flag_response : GetFlagResponse → Json
to_json_get_flag_response m = object (fields_of (get_flag_response_fields m))

abbrev pub create_flag_response_fields : CreateFlagResponse → List (String × Option Json)
create_flag_response_fields m = ("flag", message_value to_json_flag m.flag) ∷ []

unfoldable pub to_json_create_flag_response : CreateFlagResponse → Json
to_json_create_flag_response m = object (fields_of (create_flag_response_fields m))

abbrev pub list_flags_response_fields : ListFlagsResponse → List (String × Option Json)
list_flags_response_fields m = ("flag", messages_value to_json_flag m.flag) ∷ []

unfoldable pub to_json_list_flags_response : ListFlagsResponse → Json
to_json_list_flags_response m = object (fields_of (list_flags_response_fields m))

module _ (c : Conversions) where
  abbrev pub read_json_flag : (String → Option Json) → Option Flag
  read_json_flag look = some record {
    name = as_text c (first_set ("name" ∷ []) look);
    description = as_text c (first_set ("description" ∷ []) look);
    enabled = as_flag (first_set ("enabled" ∷ []) look);
  }

  unfoldable pub from_json_flag : Json → Option (Flag)
  from_json_flag = with_fields read_json_flag

  abbrev pub read_json_get_flag_request : (String → Option Json) → Option GetFlagRequest
  read_json_get_flag_request look = some record { name = as_text c (first_set ("name" ∷ []) look) }

  unfoldable pub from_json_get_flag_request : Json → Option (GetFlagRequest)
  from_json_get_flag_request = with_fields read_json_get_flag_request

  abbrev pub read_json_create_flag_request : (String → Option Json) → Option CreateFlagRequest
  read_json_create_flag_request look = some record {
    name = as_text c (first_set ("name" ∷ []) look);
    description = as_text c (first_set ("description" ∷ []) look);
    enabled = as_flag (first_set ("enabled" ∷ []) look);
  }

  unfoldable pub from_json_create_flag_request : Json → Option (CreateFlagRequest)
  from_json_create_flag_request = with_fields read_json_create_flag_request

  abbrev pub read_json_update_flag_request : (String → Option Json) → Option UpdateFlagRequest
  read_json_update_flag_request look = some record {
    name = as_text c (first_set ("name" ∷ []) look);
    enabled = as_flag (first_set ("enabled" ∷ []) look);
  }

  unfoldable pub from_json_update_flag_request : Json → Option (UpdateFlagRequest)
  from_json_update_flag_request = with_fields read_json_update_flag_request

  unfoldable pub from_json_update_flag_response : Json → Option (Unit {0})
  from_json_update_flag_response _ = some tt

  unfoldable pub from_json_list_flags_request : Json → Option (Unit {0})
  from_json_list_flags_request _ = some tt

  abbrev pub read_json_delete_flag_request : (String → Option Json) → Option DeleteFlagRequest
  read_json_delete_flag_request look =
      some record { name = as_text c (first_set ("name" ∷ []) look) }

  unfoldable pub from_json_delete_flag_request : Json → Option (DeleteFlagRequest)
  from_json_delete_flag_request = with_fields read_json_delete_flag_request

  unfoldable pub from_json_delete_flag_response : Json → Option (Unit {0})
  from_json_delete_flag_response _ = some tt

  abbrev pub read_json_get_flag_response : (String → Option Json) → Option GetFlagResponse
  read_json_get_flag_response look =
      as_message from_json_flag (first_set ("flag" ∷ []) look) >>= λ flag.
      some record { flag = flag }

  unfoldable pub from_json_get_flag_response : Json → Option (GetFlagResponse)
  from_json_get_flag_response = with_fields read_json_get_flag_response

  abbrev pub read_json_create_flag_response : (String → Option Json) → Option CreateFlagResponse
  read_json_create_flag_response look =
      as_message from_json_flag (first_set ("flag" ∷ []) look) >>= λ flag.
      some record { flag = flag }

  unfoldable pub from_json_create_flag_response : Json → Option (CreateFlagResponse)
  from_json_create_flag_response = with_fields read_json_create_flag_response

  abbrev pub read_json_list_flags_response : (String → Option Json) → Option ListFlagsResponse
  read_json_list_flags_response look =
      as_messages from_json_flag (first_array ("flag" ∷ []) look) >>= λ flag.
      some record { flag = flag }

  unfoldable pub from_json_list_flags_response : Json → Option (ListFlagsResponse)
  from_json_list_flags_response j = read_json_list_flags_response (get j)
