-- ===== src/Executor/Keys.antt =====
-- Where the results come from that the executor (src/formshift_server/executor.py) keeps under a
-- cache key, and that a key determines them.
use mathlib.Core.Path.{ap₂}
use formshift_server.Prelude.{
  String, Bool, true, some, List, [], ◌∷◌, map, ◌≡◌, ◌≢◌, refl, sym, ap, ◌∙◌, inl, inr, string_eq,
  eq_iff, elem, ok, is_empty, arith, Bool-cases,
}
use formshift_server.Prelude.Dict
use formshift_server.Prelude.Dict.{Dict, has-eq-elem}
use formshift_server.Json.{Bytes, obj, Fields}
use formshift_server.Modules.{
  PortSpec, ModuleManifest, ModuleResult, Module, Registry, lookup_module,
}
use formshift_server.Cache.{
  content_hash, recipe_document, recipe_key, Hashes, IsCollisionFree, IsPlain, Results,
}
use formshift_server.Executor.{Wired, input_keys, inputs_of, minus, declared_outputs, check_outputs}

abbrev pub ports_of : List Wired → List String
ports_of ws = map (λ (w : Wired). w.port) ws

abbrev pub port_names : List PortSpec → List String
port_names ports = map (λ (p : PortSpec). p.name) ports

-- What a module of the registry returned, within its manifest, for inputs that are payloads or
-- results of the same kind, and the key of that run.
mutual
  pub data Made (hashes : Hashes) (registry : Registry) : String → Results → Type 0 where
    made :
        {key : String} {results : Results} (m : Module) (params : Fields) (draft : Bool)
        (ws : List Wired)
        → lookup_module registry m.manifest.name ≡ some m
        → Feeds hashes registry ws
        → ports_of ws ≡ port_names m.manifest.inputs
        → m.run (inputs_of ws) params draft ≡ ok results
        → check_outputs m.manifest results ≡ ok tt
        → key ≡ recipe_key hashes m.manifest.name m.manifest.version params (input_keys ws) draft
        → Made hashes registry key results

  pub data Feeds (hashes : Hashes) (registry : Registry) : List Wired → Type 0 where
    nil : Feeds hashes registry []
    payload :
        {w : Wired} {ws : List Wired}
        → w.key ≡ content_hash hashes w.content
        → IsPlain hashes w.content
        → Feeds hashes registry ws
        → Feeds hashes registry (w ∷ ws)
    result :
        {w : Wired} {ws : List Wired} (results : Results) (port : String) (r : ModuleResult)
        → Made hashes registry w.key results
        → Dict.get port results ≡ some r
        → w.content ≡ r.content
        → Feeds hashes registry ws
        → Feeds hashes registry (w ∷ ws)

-- Every registered module has one output port.
abbrev pub SingleOutput : Registry → Type 0
SingleOutput registry =
    (name : String) (m : Module)
    → lookup_module registry name ≡ some m
    → (spec : PortSpec) × (m.manifest.outputs ≡ spec ∷ [])

-- A module does not see how the keys of its parameters are ordered.
abbrev pub IsStable : Hashes → Registry → Type 0
IsStable hashes registry =
    (name : String) (m : Module) (inputs : Dict String Bytes) (p q : Fields) (draft : Bool)
    → lookup_module registry name ≡ some m
    → hashes.dumps (obj p) ≡ hashes.dumps (obj q)
    → m.run inputs p draft ≡ m.run inputs q draft

elem-of_minus :
    (a : String) (xs ys : List String)
    → is_empty (minus xs ys) ≡ true
    → elem a xs ≡ true
    → elem a ys ≡ true
unfolding minus
elem-of_minus a [] ys h m = absurd (ground arith)
elem-of_minus a (x ∷ xs) ys h m = elim (Bool-cases (elem x ys)) [
  | inr e ↦ absurd (ground arith)
  | inl e ↦ elim (Bool-cases (string_eq.beq x a)) [
    | inl same ↦ rw (← (eq_iff x a).0 same) e
    | inr other ↦ elem-of_minus a xs ys (ground arith) (ground arith)
  ]
]

-- A result that passed the check is on a declared port.
check_outputs-declared :
    (manifest : ModuleManifest) (results : Results) (port : String) (r : ModuleResult)
    → check_outputs manifest results ≡ ok tt
    → Dict.get port results ≡ some r
    → elem port (Dict.keys (declared_outputs manifest.outputs)) ≡ true
unfolding check_outputs
check_outputs-declared manifest results port r h found =
    elem-of_minus port (Dict.keys results) (Dict.keys (declared_outputs manifest.outputs))
      (ground arith) (ground (arith, has-eq-elem {V = ModuleResult} port results))

single_port :
    (ports : List PortSpec) (spec : PortSpec) (port : String)
    → ports ≡ spec ∷ []
    → elem port (Dict.keys (declared_outputs ports)) ≡ true
    → port ≡ spec.name
unfolding declared_outputs Dict.put
single_port ports spec port one h =
    let k : elem port (spec.name ∷ []) ≡ true = rw (one, declared_outputs) at h in
    ground (arith, eq_iff spec.name port)

module _ (hashes : Hashes) (registry : Registry) (free : IsCollisionFree hashes)
    (single : SingleOutput registry) (stable : IsStable hashes registry) where
  -- The results under a key have one port.
  Made-port :
      {key : String} {results : Results}
      → Made hashes registry key results
      → (p q : String) (a b : ModuleResult) → Dict.get p results ≡ some a
      → Dict.get q results ≡ some b
      → p ≡ q
  Made-port {results = results} (made m params draft ws reg f ports ran checked e) p q a b at_p
        at_q =
      let (spec, one) = single m.manifest.name m reg in
      single_port m.manifest.outputs spec p one
        (check_outputs-declared m.manifest results p a checked at_p)
      ∙ sym (
          single_port m.manifest.outputs spec q one
            (check_outputs-declared m.manifest results q b checked at_q))

  Made-recipe :
      {key : String} {results : Results} (c : Bytes)
      → IsPlain hashes c
      → Made hashes registry key results
      → key ≢ content_hash hashes c
  Made-recipe c plain (made m params draft ws reg f ports ran checked e) same =
      plain m.manifest.name m.manifest.version params (input_keys ws) draft (
        free.bytes c
          (hashes.dumps
            (recipe_document m.manifest.name m.manifest.version params (input_keys ws) draft))
          (sym same ∙ e))

  same_module :
      (m n : Module)
      → lookup_module registry m.manifest.name ≡ some m
      → lookup_module registry n.manifest.name ≡ some n
      → m.manifest.name ≡ n.manifest.name
      → m ≡ n
  same_module m n rm rn e =
      let k : some m ≡ some n = sym rm ∙ ap (lookup_module registry) e ∙ rn in cc

  wired-eq : (v w : Wired) → v.port ≡ w.port → v.key ≡ w.key → v.content ≡ w.content → v ≡ w
  wired-eq v w p k c = λ i. record { port = p i; key = k i; content = c i }

  mutual
    Made-det :
        {key other : String} {a b : Results}
        → Made hashes registry key a
        → Made hashes registry other b
        → key ≡ other
        → a ≡ b
    Made-det {a = a} {b = b} (made m p c ws rm f pm ran _ ek) (made n q d vs rn g pn ran' _ el)
          same =
        let (name, _, canon, keys, draft) =
          free.recipe m.manifest.name n.manifest.name m.manifest.version n.manifest.version p q
            (input_keys ws) (input_keys vs) c d (free.bytes _ _ (sym ek ∙ same ∙ el)) in
        let is_m = same_module m n rm rn name in
        let ports = pm ∙ ap (λ (x : Module). port_names x.manifest.inputs) is_m ∙ sym pn in
        let inputs = Feeds-det f g ports keys in
        let first : m.run (inputs_of ws) p c ≡ m.run (inputs_of ws) q c =
          stable m.manifest.name m (inputs_of ws) p q c rm canon in
        let second : m.run (inputs_of ws) q c ≡ n.run (inputs_of vs) q d =
          λ i. (is_m i).run (inputs_of (inputs i)) q (draft i) in
        let k : ok a ≡ ok b = sym ran ∙ first ∙ second ∙ ran' in cc

    Feeds-det :
        {ws vs : List Wired}
        → Feeds hashes registry ws
        → Feeds hashes registry vs
        → ports_of ws ≡ ports_of vs
        → input_keys ws ≡ input_keys vs
        → ws ≡ vs
    Feeds-det nil nil ports keys = refl
    Feeds-det nil (payload e pl g) ports keys = absurd (ground arith)
    Feeds-det nil (result s p r h at c g) ports keys = absurd (ground arith)
    Feeds-det (payload e pl f) nil ports keys = absurd (ground arith)
    Feeds-det (payload {w = w} e pl f) (payload {w = v} e' pl' g) ports keys =
        let key : w.key ≡ v.key = ground arith in
        let content = free.bytes w.content v.content (sym e ∙ key ∙ e') in
        ap₂ ◌∷◌ (wired-eq w v (ground arith) key content)
          (Feeds-det f g (ground arith) (ground arith))
    Feeds-det (payload {w = w} e pl f) (result {w = v} s p r h at c g) ports keys =
        absurd (Made-recipe w.content pl h (let key : w.key ≡ v.key = ground arith in sym key ∙ e))
    Feeds-det (result s p r h at c f) nil ports keys = absurd (ground arith)
    Feeds-det (result {w = w} s p r h at c f) (payload {w = v} e pl g) ports keys =
        absurd (Made-recipe v.content pl h (let key : w.key ≡ v.key = ground arith in key ∙ e))
    Feeds-det (result {w = w} s p r h at c f) (result {w = v} t q r' h' at' c' g) ports keys =
        let key : w.key ≡ v.key = ground arith in
        let same : s ≡ t = Made-det h h' key in
        let at_t : Dict.get q s ≡ some r' = rw (← same) at at' in
        let port = Made-port h p q r r' at at_t in
        let content : w.content ≡ v.content = cc in
        ap₂ ◌∷◌ (wired-eq w v (ground arith) key content)
          (Feeds-det f g (ground arith) (ground arith))

  -- Results that stand under the key of a run are what that run returns, and within the manifest.
  pub Made-run :
      (m : Module) (params : Fields) (draft : Bool) (ws : List Wired) {results : Results}
      → lookup_module registry m.manifest.name ≡ some m
      → Feeds hashes registry ws
      → ports_of ws ≡ port_names m.manifest.inputs
      → Made hashes registry
          (recipe_key hashes m.manifest.name m.manifest.version params (input_keys ws) draft)
          results
      → (m.run (inputs_of ws) params draft ≡ ok results)
        × (check_outputs m.manifest results ≡ ok tt)
  Made-run m p c ws {results} rm f pm (made n q d vs rn g pn ran checked el) =
      let (name, _, canon, keys, draft) =
        free.recipe m.manifest.name n.manifest.name m.manifest.version n.manifest.version p q
          (input_keys ws) (input_keys vs) c d (free.bytes _ _ el) in
      let is_m = same_module m n rm rn name in
      let ports = pm ∙ ap (λ (x : Module). port_names x.manifest.inputs) is_m ∙ sym pn in
      let inputs = Feeds-det f g ports keys in
      let first : m.run (inputs_of ws) p c ≡ m.run (inputs_of ws) q c =
        stable m.manifest.name m (inputs_of ws) p q c rm canon in
      let second : m.run (inputs_of ws) q c ≡ n.run (inputs_of vs) q d =
        λ i. (is_m i).run (inputs_of (inputs i)) q (draft i) in
      (first ∙ second ∙ ran, ap (λ (x : Module). check_outputs x.manifest results) is_m ∙ checked)
