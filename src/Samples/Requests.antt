-- ===== src/Samples/Requests.antt =====
-- Requests to the application at concrete sessions and graphs.
use formshift_server.Prelude.{ℕ, String, false, some, [], ◌∷◌, ◌≡◌, refl, ok, string_eq}
use formshift_server.Prelude.Dict
use formshift_server.Json.{Json, obj, end, field, field?}
use formshift_server.Graph.Parse.Wire.{write_graph, parse_graph-write}
use formshift_server.Sessions.{lookup_session}
use formshift_server.Jobs.{new_manager, submit, new_job}
use formshift_server.App.{
  App, submit_job, create_session, session_or_404, manager_or_404, as_object, graph_document,
  draft_of,
}
use formshift_server.App.Alignment.{IsAligned, Reaches, begin, next, created, Reaches-IsAligned}
use formshift_server.App.Accepted.{IsAccepted, submit_job-IsAccepted}
use formshift_server.Samples.{modules, session, chain}
use formshift_server.Samples.Graphs.{chain_errors}

abbrev empty : App
empty = record { store = []; managers = [] }

abbrev new_id : ℕ → String
new_id n = "a"

two_sessions : Reaches modules new_id (create_session "t" (create_session "s" empty).0).0
two_sessions = next (next begin (created "s" empty)) (created "t" (create_session "s" empty).0)

Reaches-IsAligned_example : IsAligned (create_session "t" (create_session "s" empty).0).0
Reaches-IsAligned_example = Reaches-IsAligned modules new_id two_sessions

abbrev served : App
served = record { store = ("s", session) ∷ []; managers = ("s", new_manager session) ∷ [] }

abbrev request : Json
request = obj (field "graph" (obj (write_graph chain end)) end)

abbrev after : App
after = record served { managers = ("s", (submit "j" (new_manager session)).0) ∷ [] }

submitted : submit_job modules "j" "s" (some request) served ≡ ok (after, new_job "j", chain, false)
unfolding submit_job session_or_404 manager_or_404 lookup_session as_object graph_document field?
    Dict.get Dict.put submit draft_of
submitted = rw (parse_graph-write chain end, chain_errors) refl

submit_job-IsAccepted_example : IsAccepted modules "s" served after (new_job "j") chain
submit_job-IsAccepted_example =
    submit_job-IsAccepted modules "j" "s" (some request) served after (new_job "j") chain false
      submitted
