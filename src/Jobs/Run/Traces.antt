-- ===== src/Jobs/Run/Traces.antt =====
-- The events that `_run` of src/formshift_server/jobs.py logs while the outputs of a job grow.
use mathlib.Core.List.{append_assoc, append-nil, map-append}
use formshift_server.Prelude.{
  ℕ, String, Bool, Option, none, some, List, [], ◌∷◌, ◌++◌, map, ◌≡◌, refl, sym, ap, ◌∙◌, inl, inr,
  string_eq, pair_eq, drop, Option-cases,
}
use formshift_server.Prelude.Dict
use formshift_server.Prelude.Dict.{get-put}
use formshift_server.Executor.{ExecutionOutput}
use formshift_server.Jobs.{
  OutputRecord, Event, EventBody, EventLog, job_output, node_completed, append,
}
use formshift_server.Jobs.Outputs.{
  PortKey, Plan, Emission, emit_output, pop, release, flush, store, on_pinned, on_group, group_for,
  on_output, held_in, index_in, output_key,
}
use formshift_server.Jobs.Run.{Callback, node_done, output_done, on_callback, on_callbacks}

abbrev pub bodies : EventLog → List EventBody
bodies log = map (λ (e : Event). e.body) log

-- The records of the `job.output` events.
unfoldable pub output_records : List EventBody → List OutputRecord
output_records [] = []
output_records (job_output job r ∷ es) = r ∷ output_records es
output_records (_ ∷ es) = output_records es

output_records-append :
    (xs ys : List EventBody) → output_records (xs ++ ys) ≡ output_records xs ++ output_records ys
unfolding output_records
output_records-append [] ys = refl
output_records-append (job_output job r ∷ xs) ys = ap (◌∷◌ r) (output_records-append xs ys)
output_records-append (_ ∷ xs) ys = output_records-append xs ys

pub bodies-append :
    (log : EventLog) (body : EventBody) → bodies (append log body) ≡ bodies log ++ body ∷ []
unfolding append
bodies-append log body = map-append (λ (e : Event). e.body) log _

-- The nodes of the `node.completed` events, and of the calls of `on_node`.
unfoldable pub completed_nodes : List EventBody → List (String × Bool)
completed_nodes [] = []
completed_nodes (node_completed job n c ∷ es) = (n, c) ∷ completed_nodes es
completed_nodes (_ ∷ es) = completed_nodes es

unfoldable pub reported_nodes : List Callback → List (String × Bool)
reported_nodes [] = []
reported_nodes (node_done n c ∷ cs) = (n, c) ∷ reported_nodes cs
reported_nodes (output_done o ∷ cs) = reported_nodes cs

completed_nodes-append :
    (xs ys : List EventBody) → completed_nodes (xs ++ ys) ≡ completed_nodes xs ++ completed_nodes ys
unfolding completed_nodes
completed_nodes-append [] ys = refl
completed_nodes-append (node_completed job n c ∷ xs) ys =
    ap (◌∷◌ (n, c)) (completed_nodes-append xs ys)
completed_nodes-append (_ ∷ xs) ys = completed_nodes-append xs ys

-- From one state to a later one the log grew by events whose output records are those by which the
-- job's outputs grew, and report the nodes that are given.
pub record Traced (nodes : List (String × Bool)) (st st' : Emission) : Type 0 where
  pub events : List EventBody
  pub log : bodies st'.events ≡ bodies st.events ++ events
  pub outputs : st'.outputs ≡ st.outputs ++ output_records events
  pub completes : completed_nodes events ≡ nodes

Traced-same :
    (st st' : Emission) → st'.events ≡ st.events → st'.outputs ≡ st.outputs → Traced [] st st'
Traced-same st st' e o = record {
  events = [];
  log = ap bodies e ∙ sym (append-nil (bodies st.events));
  outputs = unfold output_records in (o ∙ sym (append-nil st.outputs));
  completes = unfold completed_nodes in refl;
}

Traced-trans :
    {ms ns : List (String × Bool)} (a b c : Emission)
    → Traced ms a b
    → Traced ns b c
    → Traced (ms ++ ns) a c
Traced-trans {ms} {ns} a b c p q = record {
  events = p.events ++ q.events;
  log = q.log ∙ ap (λ l. l ++ q.events) p.log ∙ append_assoc (bodies a.events) p.events q.events;
  outputs =
      q.outputs
      ∙ ap (λ l. l ++ output_records q.events) p.outputs
      ∙ append_assoc a.outputs (output_records p.events) (output_records q.events)
      ∙ ap (λ l. a.outputs ++ l) (sym (output_records-append p.events q.events));
  completes =
      completed_nodes-append p.events q.events
      ∙ ap (λ l. l ++ completed_nodes q.events) p.completes
      ∙ ap (λ l. ms ++ l) q.completes;
}

module _ (new_id : ℕ → String) (job : String) where
  emit_output-Traced :
      (o : ExecutionOutput) (g : Option String) (st : Emission)
      → Traced [] st (emit_output new_id job o g st)
  unfolding emit_output output_records completed_nodes
  emit_output-Traced o g st = record {
    events = _;
    log = bodies-append st.events _;
    outputs = refl;
    completes = refl;
  }

  release-Traced :
      (g : String) (key : PortKey) (o : ExecutionOutput) (st : Emission)
      → Traced [] st (release new_id job g key o st)
  release-Traced g key o st =
      Traced-trans st (pop g key st) (release new_id job g key o st)
        (Traced-same st (pop g key st) (unfold pop in refl) (unfold pop in refl))
        (Traced-trans (pop g key st) (emit_output new_id job o (some g) (pop g key st))
          (release new_id job g key o st) (emit_output-Traced o (some g) (pop g key st))
          (Traced-same _ (release new_id job g key o st) (unfold release in refl)
            (unfold release in refl)))

  flush-Traced :
      (g : String) (keys : List PortKey) (st : Emission) → Traced [] st (flush new_id job g keys st)
  unfolding flush
  flush-Traced g [] st = Traced-same st st refl refl
  flush-Traced g (key ∷ keys) st = elim (Option-cases (Dict.get key (held_in g st))) [
    | inl e ↦ rw (e, flush) (Traced-same st st refl refl)
    | inr (o, e) ↦
        rw (e, flush)
          (Traced-trans st _ _ (release-Traced g key o st)
            (flush-Traced g keys (release new_id job g key o st)))
  ]

  on_pinned-Traced :
      (g : String) (seq : List PortKey) (o : ExecutionOutput) (st : Emission)
      → Traced [] st (on_pinned new_id job g seq o st)
  unfolding on_pinned
  on_pinned-Traced g seq o st =
      Traced-trans st (store g o st)
        (flush new_id job g (drop (index_in g (store g o st)) seq) (store g o st))
        (Traced-same st (store g o st) (unfold store in refl) (unfold store in refl))
        (flush-Traced g _ (store g o st))

  on_output-Traced :
      (plan : Plan) (o : ExecutionOutput) (st : Emission)
      → Traced [] st (on_output new_id job plan o st)
  unfolding on_output on_group
  on_output-Traced plan o st = elim (Option-cases (group_for plan (output_key o))) [
    | inl e ↦ rw (e, on_group) (emit_output-Traced o none st)
    | inr (g, e) ↦ elim (Option-cases (Dict.get g plan.pinned_sequence)) [
      | inl f ↦ rw (e, on_group) (rw (f, on_group) (emit_output-Traced o (some g) st))
      | inr (seq, f) ↦ rw (e, on_group) (rw (f, on_group) (on_pinned-Traced g seq o st))
    ]
  ]

  pub on_callbacks-Traced :
      (plan : Plan) (cs : List Callback) (st : Emission)
      → Traced (reported_nodes cs) st (on_callbacks new_id job plan cs st)
  unfolding on_callbacks on_callback reported_nodes completed_nodes
  on_callbacks-Traced plan [] st = Traced-same st st refl refl
  on_callbacks-Traced plan (node_done n c ∷ cs) st =
      Traced-trans st (on_callback new_id job plan (node_done n c) st) _
        (record {
          events = node_completed job n c ∷ [];
          log = bodies-append st.events (node_completed job n c);
          outputs = unfold output_records in sym (append-nil st.outputs);
          completes = refl;
        })
        (on_callbacks-Traced plan cs (on_callback new_id job plan (node_done n c) st))
  on_callbacks-Traced plan (output_done o ∷ cs) st =
      Traced-trans st (on_callback new_id job plan (output_done o) st) _
        (on_output-Traced plan o st)
        (on_callbacks-Traced plan cs (on_callback new_id job plan (output_done o) st))
