-- ===== src/Jobs/Outputs.antt =====
-- The emission of outputs in `_run` of src/formshift_server/jobs.py: at once in completion order,
-- or, in a pinned group, in declared order behind a gate.
pub mod Gate
mod Invariant
pub mod Plans
mod Orders
pub mod Pinned
use formshift_server.Prelude.{
  ℕ, zero, suc, ◌+◌, String, Bool, true, false, Option, none, some, List, [], ◌∷◌, ◌++◌, map, ◌==◌,
  string_eq, pair_eq, drop, if◌then◌else◌,
}
use formshift_server.Prelude.Dict
use formshift_server.Prelude.Dict.{Dict}
use formshift_server.Sessions.{Session, add_payload}
use formshift_server.Graph.{OutputRef, OutputGroup, Graph}
use formshift_server.Executor.{ExecutionOutput}
use formshift_server.Jobs.{OutputRecord, EventLog, job_output, append}

abbrev pub PortKey : Type 0
PortKey = String × String

-- `group_of` and `pinned_sequence`.
pub record Plan : Type 0 where
  pub group_of : Dict PortKey (Option String)
  pub pinned_sequence : Dict String (List PortKey)

-- `{g.id: g.order for g in graph.groups}`, from the dictionary `seen` on.
unfoldable pub group_orders : Dict String String → List OutputGroup → Dict String String
group_orders seen [] = seen
group_orders seen (g ∷ gs) = group_orders (Dict.put g.id g.order seen) gs

-- `pinned_sequence.setdefault(group, []).append(key)`
unfoldable pub push : String → PortKey → Dict String (List PortKey) → Dict String (List PortKey)
push group key sequences =
    Dict.put group (elim (Dict.get group sequences) [ none ↦ [] | some keys ↦ keys ] ++ key ∷ [])
      sequences

-- The sequences after an output in `group`; `none` is the `KeyError` of an undeclared group.
unfoldable pub pin :
    Dict String String
    → Option String
    → PortKey
    → Dict String (List PortKey)
    → Option (Dict String (List PortKey))
unfolding push
pin orders none key sequences = some sequences
pin orders (some group) key sequences = elim (Dict.get group orders) [
  | none ↦ none
  | some order ↦ some (if order == "pinned" then push group key sequences else sequences)
]

-- The plan with one more output.
abbrev pub extend : Plan → OutputRef → Dict String (List PortKey) → Plan
extend plan ref sequences = record {
  group_of = Dict.put (ref.node, ref.port) ref.group plan.group_of;
  pinned_sequence = sequences;
}

-- The loop over `graph.outputs`.
unfoldable pub plan_from : Dict String String → Plan → List OutputRef → Option Plan
unfolding pin
plan_from orders plan [] = some plan
plan_from orders plan (ref ∷ refs) =
    elim (pin orders ref.group (ref.node, ref.port) plan.pinned_sequence) [
      | none ↦ none
      | some sequences ↦ plan_from orders (extend plan ref sequences) refs
    ]

unfoldable pub make_plan : Graph → Option Plan
make_plan graph =
    plan_from (group_orders [] graph.groups) (record { group_of = []; pinned_sequence = [] })
      graph.outputs

abbrev pub HeldOutputs : Type 0
HeldOutputs = Dict PortKey ExecutionOutput

-- What the callbacks of one job change. `drawn` counts the ids that `add_payload` has drawn.
pub record Emission : Type 0 where
  pub session : Session
  pub events : EventLog
  pub outputs : List OutputRecord
  pub drawn : ℕ
  pub held : Dict String HeldOutputs
  pub next_index : Dict String ℕ

-- `dict.fromkeys(pinned_sequence, 0)`
unfoldable pub zeros : Dict String (List PortKey) → Dict String ℕ
zeros [] = []
zeros ((group, keys) ∷ sequences) = (group, 0) ∷ zeros sequences

-- The state in which a job starts to emit.
abbrev pub start : Plan → Session → EventLog → ℕ → Emission
start plan session events drawn = record {
  session = session;
  events = events;
  outputs = [];
  drawn = drawn;
  held = [];
  next_index = zeros plan.pinned_sequence;
}

abbrev pub output_key : ExecutionOutput → PortKey
output_key output = (output.node, output.port)

-- `held.setdefault(group, {})` and `next_index[group]`
unfoldable pub held_in : String → Emission → HeldOutputs
held_in group st = elim (Dict.get group st.held) [ none ↦ [] | some outputs ↦ outputs ]

unfoldable pub index_in : String → Emission → ℕ
index_in group st = elim (Dict.get group st.next_index) [ none ↦ 0 | some n ↦ n ]

-- `held[group].pop(key)`
unfoldable pub pop : String → PortKey → Emission → Emission
unfolding held_in
pop group key st = record st { held = Dict.put group (Dict.remove key (held_in group st)) st.held }

-- `held.setdefault(group, {})[key] = output`
unfoldable pub store : String → ExecutionOutput → Emission → Emission
unfolding held_in
store group output st = record st {
  held = Dict.put group (Dict.put (output_key output) output (held_in group st)) st.held;
}

-- `group_of.get(key)`: None where the key is missing too.
unfoldable pub group_for : Plan → PortKey → Option String
group_for plan key = elim (Dict.get key plan.group_of) [ none ↦ none | some group ↦ group ]

module _ (new_id : ℕ → String) (job : String) where
  unfoldable pub emit_output : ExecutionOutput → Option String → Emission → Emission
  emit_output output group st =
      let (session, payload) =
        add_payload (new_id st.drawn) st.session output.type output.content in
      let emitted : OutputRecord = record {
        node = output.node;
        port = output.port;
        type = output.type;
        payload = payload.id;
        group = group;
      } in
      record st {
        session = session;
        drawn = st.drawn + 1;
        outputs = st.outputs ++ emitted ∷ [];
        events = append st.events (job_output job emitted);
      }

  -- One output that its turn has come for: popped, emitted, counted.
  unfoldable pub release : String → PortKey → ExecutionOutput → Emission → Emission
  unfolding emit_output index_in pop
  release group key ready st =
      let emitted = emit_output ready (some group) (pop group key st) in
      record emitted { next_index = Dict.put group (index_in group emitted + 1) emitted.next_index }

  -- The loop behind the gate, over the part of the sequence from `next_index` on.
  unfoldable pub flush : String → List PortKey → Emission → Emission
  unfolding release
  flush group [] st = st
  flush group (key ∷ keys) st = elim (Dict.get key (held_in group st)) [
    | none ↦ st
    | some ready ↦ flush group keys (release group key ready st)
  ]

  -- An output of the pinned group `group`.
  unfoldable pub on_pinned : String → List PortKey → ExecutionOutput → Emission → Emission
  unfolding flush store
  on_pinned group sequence output st =
      let stored = store group output st in
      flush group (drop (index_in group stored) sequence) stored

  unfoldable pub on_group : Plan → Option String → ExecutionOutput → Emission → Emission
  unfolding on_pinned emit_output
  on_group plan none output st = emit_output output none st
  on_group plan (some group) output st = elim (Dict.get group plan.pinned_sequence) [
    | none ↦ emit_output output (some group) st
    | some sequence ↦ on_pinned group sequence output st
  ]

  unfoldable pub on_output : Plan → ExecutionOutput → Emission → Emission
  unfolding on_group group_for
  on_output plan output st = on_group plan (group_for plan (output_key output)) output st

  -- The outputs of a job, in the order in which the executor reports them.
  unfoldable pub on_outputs : Plan → List ExecutionOutput → Emission → Emission
  unfolding on_output
  on_outputs plan [] st = st
  on_outputs plan (o ∷ os) st = on_outputs plan os (on_output plan o st)
