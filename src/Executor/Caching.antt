-- ===== src/Executor/Caching.antt =====
-- The result cache is transparent: `run_node` (src/formshift_server/executor.py) gives a node what
-- its module returns for the node's inputs, whether it runs the module or takes a cached result.
use formshift_server.Prelude.{
  String, Bool, true, false, some, List, [], ◌∷◌, ◌≡◌, refl, sym, ap, ◌∙◌, inl, inr, string_eq,
  pair_eq, eq_iff, Result, ok, err, >>=-eq-ok, raise_if, arith, Bool-cases, Option-cases,
  if◌then◌else◌,
}
use formshift_server.Prelude.Dict
use formshift_server.Prelude.Dict.{Dict, get-put}
use formshift_server.Modules.{PortSpec, Module, RunError, Registry, lookup_module}
use formshift_server.Sessions.{Payload, Session}
use formshift_server.Graph.{Node, Graph}
use formshift_server.Cache.{Hashes, IsCollisionFree, IsPlain, Results, cache_get, cache_put}
use formshift_server.Executor.{
  Wired, ExecState, fresh, binding_into, edge_into, or_raised, execution_cancelled, inputs_of, wire,
  gather, cache_key, check_outputs, execute_module, record_results, emit_outputs, serve, run_module,
}
use formshift_server.Executor.Keys.{
  ports_of, port_names, Made, made, Feeds, nil, payload, result, SingleOutput, IsStable, Made-run,
}

-- No payload of the session is the text of a recipe.
abbrev pub HasPlainPayloads : Hashes → Session → Type 0
HasPlainPayloads hashes session =
    (id : String) (p : Payload) → Dict.get id session.payloads ≡ some p → IsPlain hashes p.content

module _ (hashes : Hashes) (registry : Registry) where
  -- Every entry of the cache, and every node that has finished, has the results of a run.
  pub record IsSound (st : ExecState) : Type 0 where
    pub entries :
        (key : String) (results : Results)
        → cache_get key st.cache ≡ some results
        → Made hashes registry key results
    pub nodes :
        (n key : String) (results : Results)
        → Dict.get n st.node_keys ≡ some key
        → Dict.get n st.node_results ≡ some results
        → Made hashes registry key results

  -- Over an empty cache nothing has run.
  pub fresh-IsSound : IsSound (fresh [])
  unfolding cache_get Dict.get
  fresh-IsSound = record {
    entries = λ k r e. absurd (ground arith);
    nodes = λ n k r e f. absurd (ground arith);
  }

  module _ (graph : Graph) (session : Session) (plain : HasPlainPayloads hashes session)
      (st : ExecState) (sound : IsSound st) where
    wire-Feeds :
        (id : String) (port : PortSpec) (w : Wired) (ws : List Wired)
        → wire hashes graph session st id port ≡ ok w
        → Feeds hashes registry ws
        → (w.port ≡ port.name) × Feeds hashes registry (w ∷ ws)
    unfolding wire
    wire-Feeds id port w ws h f =
        elim (Option-cases (Dict.get (id, port.name) (binding_into [] graph.bindings))) [
          | inr (payload_id, e) ↦ elim (Option-cases (Dict.get payload_id session.payloads)) [
            | inl a ↦ absurd (ground arith)
            | inr (p, a) ↦
                let same : p.content ≡ w.content = ground arith in
                (ground arith, payload (ground arith) (rw (← same) (plain payload_id p a)) f)
          ]
          | inl e ↦ elim (Option-cases (Dict.get (id, port.name) (edge_into [] graph.edges))) [
            | inl a ↦ absurd (ground arith)
            | inr (source, a) ↦ elim (Option-cases (Dict.get source.0 st.node_keys)) [
              | inl b ↦ absurd (ground arith)
              | inr (key, b) ↦ elim (Option-cases (Dict.get source.0 st.node_results)) [
                | inl c ↦ absurd (ground arith)
                | inr (results, c) ↦ elim (Option-cases (Dict.get source.1 results)) [
                  | inl d ↦ absurd (ground arith)
                  | inr (r, d) ↦
                      let same : key ≡ w.key = ground arith in
                      (
                        ground arith,
                        result results source.1 r
                            (rw (← same) (sound.nodes source.0 key results b c)) d (ground arith) f,
                      )
                ]
              ]
            ]
          ]
        ]

    pub gather-Feeds :
        (id : String) (ports : List PortSpec) (ws : List Wired)
        → gather hashes graph session st id ports ≡ ok ws
        → Feeds hashes registry ws × (ports_of ws ≡ port_names ports)
    unfolding gather
    gather-Feeds id [] ws h = let e : [] ≡ ws = ground arith in (rw (← e) nil, rw (← e))
    gather-Feeds id (port ∷ ports) ws h =
        let (w, at, more) = >>=-eq-ok (wire hashes graph session st id port) _ h in
        let (rest, found, done) =
          >>=-eq-ok (gather hashes graph session st id ports) (λ r. ok (w ∷ r)) more in
        let e : w ∷ rest ≡ ws = ground arith in
        let (f, names) = gather-Feeds id ports rest found in
        let (name, fs) = wire-Feeds id port w rest at f in
        (rw (← e) fs, rw (← e) (cc (name, names)))

pub execute_module-run :
    (m : Module) (node : Node) (ws : List Wired) (draft is_cancelled : Bool) (results : Results)
    → execute_module m node ws draft is_cancelled ≡ ok results
    → (m.run (inputs_of ws) node.params draft ≡ ok results)
      × (check_outputs m.manifest results ≡ ok tt)
      × (is_cancelled ≡ false)
unfolding execute_module
execute_module-run m node ws draft is_cancelled results h =
    let (r, a, more) = >>=-eq-ok (or_raised (m.run (inputs_of ws) node.params draft)) _ h in
    let (u, b, rest) = >>=-eq-ok (check_outputs m.manifest r) _ more in
    let (v, c, done) = >>=-eq-ok (raise_if is_cancelled execution_cancelled) _ rest in
    let e : r ≡ results = ground arith in
    (
      or_raised-ok (m.run (inputs_of ws) node.params draft) a ∙ ap ok e,
      rw (← e) b,
      not_raised is_cancelled c,
    )
  where
    or_raised-ok : (o : Result RunError Results) {r : Results} → or_raised o ≡ ok r → o ≡ ok r
    or_raised-ok (ok a) h = ground arith
    or_raised-ok (err e) h = absurd (ground arith)

    not_raised : (b : Bool) {u : Unit {0}} → raise_if b execution_cancelled ≡ ok u → b ≡ false
    not_raised true h = absurd (ground arith)
    not_raised false h = refl

-- What an update under the lock changes.
pub record_results-fields :
    (graph : Graph) (id key : String) (results : Results) (c : Bool) (st st' : ExecState)
    → record_results graph id key results c st ≡ ok st'
    → (st'.cache ≡ st.cache)
      × (st'.node_keys ≡ Dict.put id key st.node_keys)
      × (st'.node_results ≡ Dict.put id results st.node_results)
unfolding record_results
record_results-fields graph id key results c st st' h =
    let (emitted, _, done) = >>=-eq-ok (emit_outputs id results graph.outputs st.emitted) _ h in
    (ground arith, ground arith, ground arith)

module _ (hashes : Hashes) (registry : Registry) (free : IsCollisionFree hashes)
    (single : SingleOutput registry) (stable : IsStable hashes registry) (graph : Graph)
    (session : Session) (plain : HasPlainPayloads hashes session) (draft is_cancelled : Bool) where
  pub record_results-IsSound :
      (id key : String) (results : Results) (c : Bool) (st st' : ExecState)
      → IsSound hashes registry st
      → Made hashes registry key results
      → record_results graph id key results c st ≡ ok st'
      → IsSound hashes registry st'
  record_results-IsSound id key results c st st' s new h =
      let (cache, keys, nodes) = record_results-fields graph id key results c st st' h in
      record {
        entries = λ k r e. s.entries k r (rw cache at e);
        nodes = λ n k r ek er.
            stored n k r (sym (get-put id n key st.node_keys) ∙ (rw keys at ek))
              (sym (get-put id n results st.node_results) ∙ (rw nodes at er));
      }
    where
      stored :
          (n k : String) (r : Results)
          → (if string_eq.beq id n then some key else Dict.get n st.node_keys) ≡ some k
          → (if string_eq.beq id n then some results else Dict.get n st.node_results) ≡ some r
          → Made hashes registry k r
      stored n k r ek er = elim (Bool-cases (string_eq.beq id n)) [
        | inl same ↦
            let is_k : key ≡ k = ground arith in
            let is_r : results ≡ r = ground arith in rw (← is_k, ← is_r) new
        | inr other ↦ s.nodes n k r (ground arith) (ground arith)
      ]

  pub cache_put-IsSound :
      (key : String) (results : Results) (st : ExecState)
      → IsSound hashes registry st
      → Made hashes registry key results
      → IsSound hashes registry (record st { cache = cache_put key results st.cache })
  unfolding cache_put cache_get
  cache_put-IsSound key results st s new = record {
    entries = λ k r e. stored k r (sym (get-put key k results st.cache) ∙ e);
    nodes = s.nodes;
  }
    where
      stored :
          (k : String) (r : Results)
          → (if string_eq.beq key k then some results else Dict.get k st.cache) ≡ some r
          → Made hashes registry k r
      stored k r e = elim (Bool-cases (string_eq.beq key k)) [
        | inl same ↦
            let is_k : key ≡ k = (eq_iff key k).0 same in
            let is_r : results ≡ r = ground arith in rw (← is_k, ← is_r) new
        | inr other ↦ s.entries k r (ground arith)
      ]

  -- What `run_node` gives a node: its module's own results for its inputs, and a sound state.
  pub record IsTransparent (node : Node) (m : Module) (st st' : ExecState) : Type 0 where
    pub inputs : List Wired
    pub results : Results
    pub gathered : gather hashes graph session st node.id m.manifest.inputs ≡ ok inputs
    pub ran : m.run (inputs_of inputs) node.params draft ≡ ok results
    pub checked : check_outputs m.manifest results ≡ ok tt
    pub kept : Dict.get node.id st'.node_results ≡ some results
    pub sound : IsSound hashes registry st'

  finish :
      (node : Node) (m : Module) (st before st' : ExecState) (ws : List Wired) (results : Results)
      (c : Bool)
      → gather hashes graph session st node.id m.manifest.inputs ≡ ok ws
      → m.run (inputs_of ws) node.params draft ≡ ok results
      → check_outputs m.manifest results ≡ ok tt
      → IsSound hashes registry before
      → Made hashes registry (cache_key hashes m node ws draft) results
      → record_results graph node.id (cache_key hashes m node ws draft) results c before ≡ ok st'
      → IsTransparent node m st st'
  finish node m st before st' ws results c gathered ran checked s new h =
      let key = cache_key hashes m node ws draft in
      let fields = record_results-fields graph node.id key results c before st' h in
      let same : string_eq.beq node.id node.id ≡ true = (eq_iff node.id node.id).1 refl in
      record {
        inputs = ws;
        results = results;
        gathered = gathered;
        ran = ran;
        checked = checked;
        kept =
            ap (Dict.get node.id) fields.2
            ∙ get-put node.id node.id results before.node_results
            ∙ rw same refl;
        sound = record_results-IsSound node.id key results c before st' s new h;
      }

  -- A run of a node leaves the results that its module returns for the node's inputs, checked
  -- against the manifest, whether or not they come from the cache; and what a key stands for stays
  -- so. The conditions: texts that do not collide under the digest, recipes that their JSON text
  -- tells apart, no payload in the session whose bytes are the JSON text of a recipe, modules with
  -- one output port, which return the same for parameters that print the same, the module
  -- registered under its name, and a state in which keys already stand for runs.
  pub run_module-IsTransparent :
      (node : Node) (m : Module) (st st' : ExecState)
      → lookup_module registry m.manifest.name ≡ some m
      → IsSound hashes registry st
      → run_module hashes graph registry session draft is_cancelled node m st ≡ ok st'
      → IsTransparent node m st st'
  unfolding run_module cache_key
  run_module-IsTransparent node m st st' rm s h =
      let (ws, gathered, more) =
        >>=-eq-ok (gather hashes graph session st node.id m.manifest.inputs) _ h in
      let (f, names) =
        gather-Feeds hashes registry graph session plain st s node.id m.manifest.inputs ws
          gathered in
      let key = cache_key hashes m node ws draft in
      elim (Option-cases (cache_get key st.cache)) [
        | inr (hit, e) ↦
            let (ran, checked) =
              Made-run hashes registry free single stable m node.params draft ws rm f names
                (s.entries key hit e) in
            finish node m st st st' ws hit true gathered ran checked s (s.entries key hit e)
              (rw (e, serve) at more)
        | inl e ↦
            let (results, executed, rest) =
              >>=-eq-ok (execute_module m node ws draft is_cancelled) _ (rw (e, serve) at more) in
            let (ran, checked, _) =
              execute_module-run m node ws draft is_cancelled results executed in
            let new : Made hashes registry key results =
              made m node.params draft ws rm f names ran checked refl in
            finish node m st _ st' ws results false gathered ran checked
              (cache_put-IsSound key results st s new) new rest
      ]
