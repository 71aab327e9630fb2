-- ===== src/Jobs/Outputs/Invariant.antt =====
-- What the gate of one pinned group (src/formshift_server/jobs.py, `on_output`) keeps true.
use mathlib.Core.List.{append_assoc}
use formshift_server.Prelude.{
  ℕ, zero, suc, ◌+◌, String, true, none, some, List, [], ◌∷◌, ◌++◌, ◌≡◌, ◌≢◌, refl, sym, ap, ◌∙◌,
  inl, inr, string_eq, pair_eq, pair_beq_iff, elem, All, All-append, All-map_of, Distinct, drop,
  Option-cases, Bool-cases, arith,
}
use formshift_server.Prelude.Dict
use formshift_server.Prelude.Dict.{get-put, get-remove}
use formshift_server.Executor.{ExecutionOutput}
use formshift_server.Jobs.Outputs.{
  PortKey, Emission, HeldOutputs, output_key, held_in, index_in, release, flush, store, on_pinned,
}
use formshift_server.Jobs.Outputs.Gate.{
  emitted_in, SameView, held_in-release, index_in-release, emitted-release, held_in-store,
}

drop-suc :
    (n : ℕ) (xs : List PortKey) (y : PortKey) (ys : List PortKey)
    → drop n xs ≡ y ∷ ys
    → drop (n + 1) xs ≡ ys
drop-suc n xs y ys h = let e : n + 1 ≡ suc n = omega arith in rw e (go n xs h)
  where
    go : (n : ℕ) (xs : List PortKey) → drop n xs ≡ y ∷ ys → drop (suc n) xs ≡ ys
    go zero [] h = absurd (ground arith)
    go zero (x ∷ xs) h = ground arith
    go (suc n) [] h = absurd (ground arith)
    go (suc n) (x ∷ xs) h = go n xs h

-- The outputs of `keys` that have arrived are held.
abbrev pub Waits : List PortKey → HeldOutputs → List PortKey → Type 0
Waits arrived held keys = All (λ k. elem k arrived ≡ true → Dict.has k held ≡ true) keys

-- The first of `keys` is not held.
abbrev pub IsShut : List PortKey → HeldOutputs → Type 0
IsShut [] held = Unit
IsShut (k ∷ keys) held = Dict.get k held ≡ none

Waits-remove :
    (arrived : List PortKey) (key : PortKey) (held : HeldOutputs) (keys : List PortKey)
    → All (λ k. key ≢ k) keys
    → Waits arrived held keys
    → Waits arrived (Dict.remove key held) keys
Waits-remove arrived key held [] ne w = tt
Waits-remove arrived key held (k ∷ keys) ne w = (
  λ a.
      ground
        (arith, w.0 a, ne.0, get-remove key k held, pair_beq_iff {A = String} {B = String} key k),
  Waits-remove arrived key held keys ne.1 w.1,
)

Waits-put :
    (arrived : List PortKey) (key : PortKey) (o : ExecutionOutput) (held : HeldOutputs)
    (keys : List PortKey)
    → Waits arrived held keys
    → Waits (key ∷ arrived) (Dict.put key o held) keys
Waits-put arrived key o held [] w = tt
Waits-put arrived key o held (k ∷ keys) w =
    (λ a. ground (arith, w.0, get-put key k o held), Waits-put arrived key o held keys w.1)

module _ (new_id : ℕ → String) (job : String) (g : String) (seq : List PortKey) where
  -- The group's view, with or without the gate having been tried.
  pub record Partial (arrived : List PortKey) (st : Emission) : Type 0 where
    pub split : emitted_in g st.outputs ++ drop (index_in g st) seq ≡ seq
    pub stored :
        (k : PortKey) (o : ExecutionOutput)
        → Dict.get k (held_in g st) ≡ some o
        → (output_key o ≡ k) × (elem k arrived ≡ true)
    pub waits : Waits arrived (held_in g st) (drop (index_in g st) seq)
    pub emitted : All (λ k. elem k arrived ≡ true) (emitted_in g st.outputs)

  abbrev pub Holds : List PortKey → Emission → Type 0
  Holds arrived st = Partial arrived st × IsShut (drop (index_in g st) seq) (held_in g st)

  module _ (arrived : List PortKey) (key : PortKey) (keys : List PortKey) (ready : ExecutionOutput)
      (st : Emission) where
    release-Partial :
        drop (index_in g st) seq ≡ key ∷ keys
        → All (λ k. key ≢ k) keys
        → Dict.get key (held_in g st) ≡ some ready
        → Partial arrived st
        → Partial arrived (release new_id job g key ready st)
    release-Partial here ne found p =
        let next : drop (index_in g (release new_id job g key ready st)) seq ≡ keys =
          rw index_in-release (drop-suc (index_in g st) seq key keys here) in
        let named = p.stored key ready found in
        record {
          split =
              rw (next, emitted-release, named.0)
                (append_assoc (emitted_in g st.outputs) (key ∷ []) keys
                  ∙ (let whole : emitted_in g st.outputs ++ key ∷ keys ≡ seq = rw here at p.split in
                      whole));
          stored = λ k o e.
              p.stored k o
                (ground (arith, rw held_in-release at e, get-remove key k (held_in g st)));
          waits =
              rw (next, held_in-release)
                (Waits-remove arrived key (held_in g st) keys ne
                  (let w : Waits arrived (held_in g st) (key ∷ keys) = rw here at p.waits in w.1));
          emitted =
              rw (emitted-release, named.0)
                (All-append (λ k. elem k arrived ≡ true) (emitted_in g st.outputs) (key ∷ [])
                  p.emitted (named.1, tt));
        }

  flush-Holds :
      (arrived keys : List PortKey) (st : Emission)
      → drop (index_in g st) seq ≡ keys
      → Distinct keys
      → Partial arrived st
      → Holds arrived (flush new_id job g keys st)
  unfolding flush
  flush-Holds arrived [] st here d p = (p, rw here tt)
  flush-Holds arrived (key ∷ keys) st here d p = elim (Option-cases (Dict.get key (held_in g st))) [
    | inl e ↦ rw (e, flush) (p, rw here e)
    | inr (ready, e) ↦
        rw (e, flush)
          (flush-Holds arrived keys (release new_id job g key ready st)
            (rw index_in-release (drop-suc (index_in g st) seq key keys here)) d.1
            (release-Partial arrived key keys ready st here d.0 e p))
  ]

  store-Partial :
      (arrived : List PortKey) (o : ExecutionOutput) (st : Emission)
      → Partial arrived st
      → Partial (output_key o ∷ arrived) (store g o st)
  store-Partial arrived o st p =
      let key = output_key o in
      let index : index_in g (store g o st) ≡ index_in g st = unfold store index_in in refl in
      let outputs : (store g o st).outputs ≡ st.outputs = unfold store in refl in
      record {
        split = rw (index, outputs) p.split;
        stored = λ k q e. stored k q (rw held_in-store at e);
        waits = rw (index, held_in-store) (Waits-put arrived key o (held_in g st) _ p.waits);
        emitted = rw outputs (All-map_of _ (λ k a. ground arith) p.emitted);
      }
    where
      stored :
          (k : PortKey) (q : ExecutionOutput)
          → Dict.get k (Dict.put (output_key o) o (held_in g st)) ≡ some q
          → (output_key q ≡ k) × (elem k (output_key o ∷ arrived) ≡ true)
      stored k q e = elim (Bool-cases ((pair_eq {A = String} {B = String}).beq (output_key o) k)) [
        | inl same ↦
            let found : o ≡ q = ground (arith, get-put (output_key o) k o (held_in g st)) in
            (
              ap output_key (sym found)
                  ∙ (pair_beq_iff {A = String} {B = String} (output_key o) k).0 same,
              ground arith,
            )
        | inr other ↦
            let old = p.stored k q (ground (arith, get-put (output_key o) k o (held_in g st))) in
            (old.0, ground (arith, old.1))
      ]

  drop-Distinct : (n : ℕ) (xs : List PortKey) → Distinct xs → Distinct (drop n xs)
  drop-Distinct zero xs d = d
  drop-Distinct (suc n) [] d = tt
  drop-Distinct (suc n) (x ∷ xs) d = drop-Distinct n xs d.1

  pub on_pinned-Holds :
      (arrived : List PortKey) (o : ExecutionOutput) (st : Emission)
      → Distinct seq
      → Holds arrived st
      → Holds (output_key o ∷ arrived) (on_pinned new_id job g seq o st)
  unfolding on_pinned
  on_pinned-Holds arrived o st d h =
      flush-Holds (output_key o ∷ arrived) _ (store g o st) refl
        (drop-Distinct (index_in g (store g o st)) seq d) (store-Partial arrived o st h.0)

  Waits-other :
      (arrived : List PortKey) (key : PortKey) (held : HeldOutputs) (keys : List PortKey)
      → All (λ k. key ≢ k) keys
      → Waits arrived held keys
      → Waits (key ∷ arrived) held keys
  Waits-other arrived key held [] ne w = tt
  Waits-other arrived key held (k ∷ keys) ne w = (
    λ a. w.0 (ground (arith, ne.0, pair_beq_iff {A = String} {B = String} key k)),
    Waits-other arrived key held keys ne.1 w.1,
  )

  -- An output that does not belong to the group.
  pub other-Holds :
      (arrived : List PortKey) (key : PortKey) (st st' : Emission)
      → All (λ k. key ≢ k) (drop (index_in g st) seq)
      → SameView g st st'
      → Holds arrived st
      → Holds (key ∷ arrived) st'
  other-Holds arrived key st st' ne v h = (
    record {
      split = rw (v.emitted, v.index) h.0.split;
      stored = λ k o e. let old = h.0.stored k o (rw v.held at e) in (old.0, ground (arith, old.1));
      waits = rw (v.index, v.held) (Waits-other arrived key (held_in g st) _ ne h.0.waits);
      emitted = rw v.emitted (All-map_of _ (λ k a. ground arith) h.0.emitted);
    },
    rw (v.index, v.held) h.1,
  )
