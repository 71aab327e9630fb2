-- ===== src/Sessions.antt =====
-- src/formshift_server/sessions.py: payloads, sessions and their store. `_new_id` draws a random
-- id: the operations take the id that it returns as an argument.
use formshift_server.Prelude.{String, Bool, Option, [], string_eq, is_some}
use formshift_server.Prelude.Dict
use formshift_server.Prelude.Dict.{Dict}
use formshift_server.Json.{Bytes}

pub record Payload : Type 0 where
  pub id : String
  pub type : String
  pub content : Bytes

pub record Session : Type 0 where
  pub id : String
  pub payloads : Dict String Payload

-- The session that `add_payload` leaves, and the payload that it returns.
unfoldable pub add_payload : String → Session → String → Bytes → Session × Payload
add_payload new_id session type_string content =
    let payload : Payload = record { id = new_id; type = type_string; content = content } in
    (record session { payloads = Dict.put new_id payload session.payloads }, payload)

abbrev pub SessionStore : Type 0
SessionStore = Dict String Session

unfoldable pub create : String → SessionStore → SessionStore × Session
create new_id store =
    let session : Session = record { id = new_id; payloads = [] } in
    (Dict.put new_id session store, session)

unfoldable pub lookup_session : SessionStore → String → Option Session
lookup_session store session_id = Dict.get session_id store

unfoldable pub delete : SessionStore → String → SessionStore × Bool
delete store session_id = (Dict.remove session_id store, is_some (Dict.get session_id store))
