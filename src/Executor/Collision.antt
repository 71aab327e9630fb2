-- ===== src/Executor/Collision.antt =====
-- A key of the cache does not name the port that feeds an input: `run_node`
-- (src/formshift_server/executor.py) appends the key of the source node, whichever of its output
-- ports the edge leaves.
use formshift_server.Prelude.{
  String, Bool, true, false, none, some, List, [], ◌∷◌, ◌≡◌, ◌≢◌, refl, sym, ap, ◌∙◌, inl, inr,
  string_eq, pair_eq, eq_iff, ok, >>=-eq-ok, arith, Option-cases,
}
use formshift_server.Prelude.Dict
use formshift_server.Prelude.Dict.{Dict, get-put}
use formshift_server.Modules.{PortSpec, Module, Registry}
use formshift_server.Sessions.{Session}
use formshift_server.Graph.{Node, Graph}
use formshift_server.Cache.{recipe_key, Hashes, Results, cache_get, cache_put}
use formshift_server.Executor.{
  Wired, ExecState, binding_into, edge_into, input_keys, wire, gather, cache_key, execute_module,
  serve, run_module,
}
use formshift_server.Executor.Caching.{record_results-fields}

module _ (hashes : Hashes) (graph : Graph) (session : Session) where
  -- The input port of a node is fed by an edge, from the port `out` of the node `source`.
  pub record FedFrom (node_id port source out : String) : Type 0 where
    pub unbound : Dict.get (node_id, port) (binding_into [] graph.bindings) ≡ none
    pub edge : Dict.get (node_id, port) (edge_into [] graph.edges) ≡ some (source, out)

  wire-key :
      (st : ExecState) (id source out : String) (port : PortSpec) (w : Wired)
      → FedFrom id port.name source out
      → wire hashes graph session st id port ≡ ok w
      → Dict.get source st.node_keys ≡ some w.key
  unfolding wire
  wire-key st id source out port w fed h = elim (Option-cases (Dict.get source st.node_keys)) [
    | inl a ↦ absurd (ground (arith, fed.unbound, fed.edge))
    | inr (key, a) ↦ elim (Option-cases (Dict.get source st.node_results)) [
      | inl b ↦ absurd (ground (arith, fed.unbound, fed.edge))
      | inr (results, b) ↦ elim (Option-cases (Dict.get out results)) [
        | inl c ↦ absurd (ground (arith, fed.unbound, fed.edge))
        | inr (r, c) ↦ ground (arith, fed.unbound, fed.edge)
      ]
    ]
  ]

  gather_keys :
      (st : ExecState) (id source out key : String) (ports : List PortSpec) (port : PortSpec)
      (ws : List Wired)
      → ports ≡ port ∷ []
      → FedFrom id port.name source out
      → Dict.get source st.node_keys ≡ some key
      → gather hashes graph session st id ports ≡ ok ws
      → input_keys ws ≡ key ∷ []
  unfolding gather
  gather_keys st id source out key ports port ws one fed known h =
      let (w, at, more) =
        >>=-eq-ok (wire hashes graph session st id port) _ (rw (one, gather) at h) in
      let e : w ∷ [] ≡ ws = ground arith in
      let found : some key ≡ some w.key = sym known ∙ wire-key st id source out port w fed at in
      rw (← e) (cc found)

module _ (hashes : Hashes) (graph : Graph) (registry : Registry) (session : Session)
    (draft is_cancelled : Bool) (m : Module) where
  -- What a run of a node leaves under the node and under its key.
  record Leaves (node : Node) (ws : List Wired) (st st' : ExecState) : Type 0 where
    results : Results
    at_node : Dict.get node.id st'.node_results ≡ some results
    at_key : cache_get (cache_key hashes m node ws draft) st'.cache ≡ some results
    keys : st'.node_keys ≡ Dict.put node.id (cache_key hashes m node ws draft) st.node_keys
    from_cache :
        (hit : Results)
        → cache_get (cache_key hashes m node ws draft) st.cache ≡ some hit
        → hit ≡ results

  run-Leaves :
      (node : Node) (ws : List Wired) (st st' : ExecState)
      → serve hashes graph registry session draft is_cancelled node m ws st ≡ ok st'
      → Leaves node ws st st'
  unfolding serve
  run-Leaves node ws st st' more =
      let key = cache_key hashes m node ws draft in
      let same : string_eq.beq node.id node.id ≡ true = (eq_iff node.id node.id).1 refl in
      elim (Option-cases (cache_get key st.cache)) [
        | inr (hit, e) ↦
            let fields =
              record_results-fields graph node.id key hit true st st' (rw (e, serve) at more) in
            record {
              results = hit;
              at_node =
                  ap (Dict.get node.id) fields.2
                  ∙ get-put node.id node.id hit st.node_results
                  ∙ rw same refl;
              at_key = ap (cache_get key) fields.0 ∙ e;
              keys = fields.1;
              from_cache = λ other f. let k : some other ≡ some hit = sym f ∙ e in cc;
            }
        | inl e ↦
            let (results, _, rest) =
              >>=-eq-ok (execute_module m node ws draft is_cancelled) _ (rw (e, serve) at more) in
            let before : ExecState = record st { cache = cache_put key results st.cache } in
            let fields = record_results-fields graph node.id key results false before st' rest in
            let here : string_eq.beq key key ≡ true = (eq_iff key key).1 refl in
            record {
              results = results;
              at_node =
                  ap (Dict.get node.id) fields.2
                  ∙ get-put node.id node.id results st.node_results
                  ∙ rw same refl;
              at_key =
                  ap (cache_get key) fields.0
                  ∙ unfold cache_get cache_put in (get-put key key results st.cache ∙ rw here refl);
              keys = fields.1;
              from_cache = λ other f. absurd (let k : some other ≡ none = sym f ∙ e in cc);
            }
      ]

  -- Two nodes of one module with one input, equal parameters and one source node: the node that
  -- runs second is given the results of the first, whichever ports of the source feed them.
  pub second-served_first :
      (a b : Node) (port : PortSpec) (source x y key : String) (st st' st'' : ExecState)
      → m.manifest.inputs ≡ port ∷ []
      → a.params ≡ b.params
      → FedFrom hashes graph session a.id port.name source x
      → FedFrom hashes graph session b.id port.name source y
      → a.id ≢ source
      → Dict.get source st.node_keys ≡ some key
      → run_module hashes graph registry session draft is_cancelled a m st ≡ ok st'
      → run_module hashes graph registry session draft is_cancelled b m st' ≡ ok st''
      → Dict.get b.id st''.node_results ≡ Dict.get a.id st'.node_results
  unfolding cache_key run_module
  second-served_first a b port source x y key st st' st'' one params fed_a fed_b ne known run_a
        run_b =
      let (ws, g, serve_a) =
        >>=-eq-ok (gather hashes graph session st a.id m.manifest.inputs) _ run_a in
      let (vs, k, serve_b) =
        >>=-eq-ok (gather hashes graph session st' b.id m.manifest.inputs) _ run_b in
      let first = run-Leaves a ws st st' serve_a in
      let second = run-Leaves b vs st' st'' serve_b in
      let other : string_eq.beq a.id source ≡ false = ground (arith, eq_iff a.id source, ne) in
      let known' : Dict.get source st'.node_keys ≡ some key =
        ap (Dict.get source) first.keys
        ∙ get-put a.id source (cache_key hashes m a ws draft) st.node_keys
        ∙ rw other known in
      let keys_a =
        gather_keys hashes graph session st a.id source x key m.manifest.inputs port ws one fed_a
          known g in
      let keys_b =
        gather_keys hashes graph session st' b.id source y key m.manifest.inputs port vs one fed_b
          known' k in
      let same_key : cache_key hashes m a ws draft ≡ cache_key hashes m b vs draft = λ i.
        recipe_key hashes m.manifest.name m.manifest.version (params i) ((keys_a ∙ sym keys_b) i)
          draft in
      let same : first.results ≡ second.results =
        second.from_cache first.results (rw same_key at first.at_key) in
      second.at_node ∙ ap some (sym same) ∙ sym first.at_node
