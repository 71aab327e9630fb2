-- ===== src/Jobs/Outputs/Gate.antt =====
-- The gate of one pinned group: what each step does to the group's view of the emission, and that
-- the steps of other groups leave that view alone.
use mathlib.Core.List.{append-nil}
use formshift_server.Prelude.{
  ℕ, ◌+◌, String, Bool, true, false, Option, none, some, List, [], ◌∷◌, ◌++◌, ◌≡◌, ◌≢◌, refl, ◌∙◌,
  inl, inr, string_eq, pair_eq, eq_iff, Option-cases, arith, if◌then◌else◌,
}
use formshift_server.Prelude.Dict
use formshift_server.Prelude.Dict.{get-put, get-remove}
use formshift_server.Executor.{ExecutionOutput}
use formshift_server.Jobs.{OutputRecord}
use formshift_server.Jobs.Outputs.{
  PortKey, Emission, HeldOutputs, output_key, emit_output, held_in, index_in, pop, release, flush,
  store, on_pinned,
}

abbrev pub in_group : String → Option String → Bool
in_group g none = false
in_group g (some h) = string_eq.beq h g

-- The ports of the records of one group, in the order of their emission.
unfoldable pub emitted_in : String → List OutputRecord → List PortKey
emitted_in g [] = []
emitted_in g (r ∷ rs) =
    let rest = emitted_in g rs in if in_group g r.group then (r.node, r.port) ∷ rest else rest

emitted_in-append :
    (g : String) (xs ys : List OutputRecord)
    → emitted_in g (xs ++ ys) ≡ emitted_in g xs ++ emitted_in g ys
unfolding emitted_in
emitted_in-append g [] ys = refl
emitted_in-append g (x ∷ xs) ys = ground (arith, emitted_in-append g xs ys)

-- The group's part of the state is the same in both.
pub record SameView (g : String) (st st' : Emission) : Type 0 where
  pub held : held_in g st' ≡ held_in g st
  pub index : index_in g st' ≡ index_in g st
  pub emitted : emitted_in g st'.outputs ≡ emitted_in g st.outputs

SameView-refl : (g : String) (st : Emission) → SameView g st st
SameView-refl g st = record { held = refl; index = refl; emitted = refl }

SameView-trans : {g : String} {a b c : Emission} → SameView g a b → SameView g b c → SameView g a c
SameView-trans p q = record {
  held = q.held ∙ p.held;
  index = q.index ∙ p.index;
  emitted = q.emitted ∙ p.emitted;
}

module _ (new_id : ℕ → String) (job : String) (g : String) where
  emitted-emit_output :
      (output : ExecutionOutput) (group : Option String) (st : Emission)
      → emitted_in g (emit_output new_id job output group st).outputs
        ≡ emitted_in g st.outputs ++ (if in_group g group then output_key output ∷ [] else [])
  unfolding emit_output
  emitted-emit_output output group st = rw emitted_in-append (unfold emitted_in in ground arith)

  pub emit_output-SameView :
      (output : ExecutionOutput) (group : Option String) (st : Emission)
      → in_group g group ≡ false
      → SameView g st (emit_output new_id job output group st)
  emit_output-SameView output group st other = record {
    held = unfold emit_output held_in in refl;
    index = unfold emit_output index_in in refl;
    emitted = emitted-emit_output output group st ∙ rw other (append-nil (emitted_in g st.outputs));
  }

  module _ (key : PortKey) (ready : ExecutionOutput) (st : Emission) where
    pub held_in-release :
        held_in g (release new_id job g key ready st) ≡ Dict.remove key (held_in g st)
    unfolding release held_in emit_output
    held_in-release =
        ground (
          arith,
          get-put {V = HeldOutputs} g g (Dict.remove key (held_in g st)) st.held,
          eq_iff g g,
        )

    pub index_in-release : index_in g (release new_id job g key ready st) ≡ index_in g st + 1
    unfolding release index_in emit_output
    index_in-release =
        ground (arith, get-put {V = ℕ} g g (index_in g st + 1) st.next_index, eq_iff g g)

    pub emitted-release :
        emitted_in g (release new_id job g key ready st).outputs
        ≡ emitted_in g st.outputs ++ output_key ready ∷ []
    unfolding release
    emitted-release =
        emitted-emit_output ready (some g) (pop g key st)
        ∙ (let same : string_eq.beq g g ≡ true = (eq_iff g g).1 refl in rw same refl)

    pub release-SameView : (h : String) → h ≢ g → SameView g st (release new_id job h key ready st)
    release-SameView h other =
        let ne : string_eq.beq h g ≡ false = ground (arith, eq_iff h g, other) in
        record {
          held =
              unfold release held_in emit_output in
              ground
                (arith, ne, get-put {V = HeldOutputs} h g (Dict.remove key (held_in h st)) st.held);
          index =
              unfold release index_in emit_output in
              ground (arith, ne, get-put {V = ℕ} h g (index_in h st + 1) st.next_index);
          emitted =
              unfold release in
              (emitted-emit_output ready (some h) (pop h key st)
                ∙ rw ne (append-nil (emitted_in g st.outputs)));
        }

  flush-SameView :
      (h : String) (keys : List PortKey) (st : Emission)
      → h ≢ g
      → SameView g st (flush new_id job h keys st)
  unfolding flush
  flush-SameView h [] st other = SameView-refl g st
  flush-SameView h (key ∷ keys) st other = elim (Option-cases (Dict.get key (held_in h st))) [
    | inl e ↦ rw (e, flush) (SameView-refl g st)
    | inr (ready, e) ↦
        rw (e, flush)
          (SameView-trans (release-SameView key ready st h other)
            (flush-SameView h keys (release new_id job h key ready st) other))
  ]

  store-SameView :
      (h : String) (output : ExecutionOutput) (st : Emission)
      → h ≢ g
      → SameView g st (store h output st)
  store-SameView h output st other =
      let ne : string_eq.beq h g ≡ false = ground (arith, eq_iff h g, other) in
      record {
        held =
            unfold store held_in in
            ground (
              arith,
              ne,
              get-put {V = HeldOutputs} h g (Dict.put (output_key output) output (held_in h st))
                  st.held,
            );
        index = unfold store index_in in refl;
        emitted = unfold store in refl;
      }

  pub on_pinned-SameView :
      (h : String) (sequence : List PortKey) (output : ExecutionOutput) (st : Emission)
      → h ≢ g
      → SameView g st (on_pinned new_id job h sequence output st)
  unfolding on_pinned
  on_pinned-SameView h sequence output st other =
      SameView-trans (store-SameView h output st other) (flush-SameView h _ _ other)

  pub held_in-store :
      (output : ExecutionOutput) (st : Emission)
      → held_in g (store g output st) ≡ Dict.put (output_key output) output (held_in g st)
  unfolding store held_in
  held_in-store output st = ground (
    arith,
    eq_iff g g,
    get-put {V = HeldOutputs} g g (Dict.put (output_key output) output (held_in g st)) st.held,
  )
