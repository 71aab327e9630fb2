-- ===== src/Executor/Workers/Soundness.antt =====
-- However the workers of an execution (src/formshift_server/executor.py) interleave, each has what
-- its module returns for its inputs.
use formshift_server.Prelude.{
  String, Bool, true, false, some, List, [], ◌∷◌, ◌++◌, ◌≡◌, refl, ap, ◌∙◌, ok, All,
}
use formshift_server.Modules.{Module, Registry, lookup_module}
use formshift_server.Sessions.{Session}
use formshift_server.Graph.{Node, Graph}
use formshift_server.Cache.{Hashes, IsCollisionFree, Results}
use formshift_server.Executor.{Wired, inputs_of, cache_key, check_outputs}
use formshift_server.Executor.Keys.{
  ports_of, port_names, Made, made, Feeds, SingleOutput, IsStable, Made-run,
}
use formshift_server.Executor.Caching.{
  HasPlainPayloads, IsSound, fresh-IsSound, gather-Feeds, execute_module-run,
  record_results-IsSound, cache_put-IsSound,
}
use formshift_server.Executor.Workers.{
  Phase, gathered, missed, computed, Pool, Step, starts, hits, misses, executes, records, Reaches,
  begin, next,
}

-- The registry has each module under its own name, as `register` leaves it.
abbrev pub IsNamed : Registry → Type 0
IsNamed registry =
    (name : String) (m : Module) → lookup_module registry name ≡ some m → m.manifest.name ≡ name

module _ (hashes : Hashes) (registry : Registry) (draft : Bool) where
  pub record HasInputs (m : Module) (ws : List Wired) : Type 0 where
    pub registered : lookup_module registry m.manifest.name ≡ some m
    pub feeds : Feeds hashes registry ws
    pub ports : ports_of ws ≡ port_names m.manifest.inputs

  pub record HasResults (node : Node) (m : Module) (ws : List Wired) (results : Results)
      : Type 0 where
    pub inputs : HasInputs m ws
    pub ran : m.run (inputs_of ws) node.params draft ≡ ok results
    pub checked : check_outputs m.manifest results ≡ ok tt

  abbrev pub IsRight : Phase → Type 0
  IsRight (gathered node m ws) = HasInputs m ws
  IsRight (missed node m ws) = HasInputs m ws
  IsRight (computed node m ws results was_cached) = HasResults node m ws results

  pub record IsSoundPool (p : Pool) : Type 0 where
    pub shared : IsSound hashes registry p.shared
    pub workers : All IsRight p.workers

-- One worker among others, replaced or left out.
All-split {κ} :
    (P : Phase → Type κ) (xs : List Phase) (w : Phase) (ys : List Phase)
    → All P (xs ++ w ∷ ys)
    → P w × ((v : Phase) → P v → All P (xs ++ v ∷ ys)) × All P (xs ++ ys)
All-split P [] w ys h = (h.0, λ v at. (at, h.1), h.1)
All-split P (x ∷ xs) w ys h =
    let (here, put, rest) = All-split P xs w ys h.1 in (here, λ v at. (h.0, put v at), (h.0, rest))

module _ (hashes : Hashes) (registry : Registry) (free : IsCollisionFree hashes)
    (single : SingleOutput registry) (stable : IsStable hashes registry) (named : IsNamed registry)
    (graph : Graph) (session : Session) (plain : HasPlainPayloads hashes session)
    (draft : Bool) where
  results-Made :
      (node : Node) (m : Module) (ws : List Wired) (results : Results)
      → HasResults hashes registry draft node m ws results
      → Made hashes registry (cache_key hashes m node ws draft) results
  unfolding cache_key
  results-Made node m ws results r =
      made m node.params draft ws r.inputs.registered r.inputs.feeds r.inputs.ports r.ran r.checked
        refl

  Step-IsSoundPool :
      {p q : Pool}
      → Step hashes graph registry session draft p q
      → IsSoundPool hashes registry draft p
      → IsSoundPool hashes registry draft q
  unfolding cache_key
  Step-IsSoundPool (starts node m ws st others known found) s =
      let (feeds, ports) =
        gather-Feeds hashes registry graph session plain st s.shared node.id m.manifest.inputs ws
          found in
      record {
        shared = s.shared;
        workers = (
          record {
            registered = ap (lookup_module registry) (named node.module_name m known) ∙ known;
            feeds = feeds;
            ports = ports;
          },
          s.workers,
        );
      }
  Step-IsSoundPool (hits node m ws st xs ys hit found) s =
      let (here, put, rest) =
        All-split (IsRight hashes registry draft) xs (gathered node m ws) ys s.workers in
      let (ran, checked) =
        Made-run hashes registry free single stable m node.params draft ws here.registered
          here.feeds here.ports (s.shared.entries (cache_key hashes m node ws draft) hit found) in
      record {
        shared = s.shared;
        workers =
            put (computed node m ws hit true)
              (record { inputs = here; ran = ran; checked = checked });
      }
  Step-IsSoundPool (misses node m ws st xs ys absent) s =
      let (here, put, rest) =
        All-split (IsRight hashes registry draft) xs (gathered node m ws) ys s.workers in
      record { shared = s.shared; workers = put (missed node m ws) here }
  Step-IsSoundPool (executes node m ws st xs ys is_cancelled results e) s =
      let (here, put, rest) =
        All-split (IsRight hashes registry draft) xs (missed node m ws) ys s.workers in
      let (ran, checked, _) = execute_module-run m node ws draft is_cancelled results e in
      let right : HasResults hashes registry draft node m ws results = record {
        inputs = here;
        ran = ran;
        checked = checked;
      } in
      record {
        shared =
            cache_put-IsSound hashes registry free single stable graph session plain draft
              is_cancelled (cache_key hashes m node ws draft) results st s.shared
              (results-Made node m ws results right);
        workers = put (computed node m ws results false) right;
      }
  Step-IsSoundPool (records node m ws st st' xs ys results was_cached e) s =
      let (here, put, rest) =
        All-split (IsRight hashes registry draft) xs (computed node m ws results was_cached) ys
          s.workers in
      record {
        shared =
            record_results-IsSound hashes registry free single stable graph session plain draft
              false node.id (cache_key hashes m node ws draft) results was_cached st st' s.shared
              (results-Made node m ws results here) e;
        workers = rest;
      }

  -- In every state that workers reach from an empty cache, however they interleave: a worker with
  -- results has what its module returns for the inputs that it read, within the manifest; and each
  -- entry of the cache and each finished node has the results of such a run. The conditions: texts
  -- that do not collide under the digest, recipes that their JSON text tells apart, no payload in
  -- the session whose bytes are the JSON text of a recipe, modules with one output port that return
  -- the same for parameters that print the same, and a registry that has each module under its own
  -- name.
  pub Reaches-IsSoundPool :
      {p : Pool}
      → Reaches hashes graph registry session draft p
      → IsSoundPool hashes registry draft p
  Reaches-IsSoundPool begin = record { shared = fresh-IsSound hashes registry; workers = tt }
  Reaches-IsSoundPool (next reached step) = Step-IsSoundPool step (Reaches-IsSoundPool reached)
