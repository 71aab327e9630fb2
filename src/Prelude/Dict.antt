-- ===== src/Prelude/Dict.antt =====
-- Python's `dict`: an association list in insertion order. A write to a key that is present
-- keeps its place, and a write to a new key goes to the end.
use mathlib.Core.Path.{◌≡◌, refl, subst}
use mathlib.Core.Bool.{Bool, false}
use mathlib.Core.List.{List, [], ◌∷◌}
use mathlib.Core.Logic.{◌≢◌, inl, inr}
use mathlib.Core.Option.{Option, none, some}
use native.Mathlib.Omega.{arith}
use formshift_server.Prelude.Tests.{if◌then◌else◌, is_some, Bool-cases}
use formshift_server.Prelude.Keys.{Eq}
use formshift_server.Prelude.Lists.{All, Distinct, elem, not-elem}

abbrev pub Dict {ℓ κ} : Type ℓ → Type κ → Type (ℓ ⊔ κ)
Dict K V = List (K × V)

module _ {ℓ κ} {K : Type ℓ} {V : Type κ} ⦃e : Eq K⦄ where
  -- `d.get(key)`
  unfoldable pub get : K → Dict K V → Option V
  get k [] = none
  get k ((j, v) ∷ d) = if e.beq j k then some v else get k d

  -- `key in d`
  abbrev pub has : K → Dict K V → Bool
  has k d = is_some (get k d)

  -- `d[key] = value`
  unfoldable pub put : K → V → Dict K V → Dict K V
  put k v [] = (k, v) ∷ []
  put k v ((j, w) ∷ d) = if e.beq j k then (j, v) ∷ d else (j, w) ∷ put k v d

  -- `d.pop(key, None)`, the dictionary that is left
  unfoldable pub remove : K → Dict K V → Dict K V
  remove k [] = []
  remove k ((j, w) ∷ d) = let rest = remove k d in if e.beq j k then rest else (j, w) ∷ rest

  pub get-put :
      (k j : K) (v : V) (d : Dict K V) → get j (put k v d) ≡ (if e.beq k j then some v else get j d)
  unfolding get put
  get-put k j v [] = refl
  get-put k j v ((i, w) ∷ d) =
      ground (arith, e.beq_iff k j, e.beq_iff i k, e.beq_iff i j, get-put k j v d)

  pub get-remove :
      (k j : K) (d : Dict K V) → get j (remove k d) ≡ (if e.beq k j then none else get j d)
  unfolding get remove
  get-remove k j [] = ground arith
  get-remove k j ((i, w) ∷ d) =
      ground (arith, e.beq_iff k j, e.beq_iff i k, e.beq_iff i j, get-remove k j d)

  -- Taking out a key that was put in anew gives the dictionary back, order included.
  pub remove_absent : (k : K) (d : Dict K V) → get k d ≡ none → remove k d ≡ d
  unfolding get remove
  remove_absent k [] h = refl
  remove_absent k ((j, w) ∷ d) h = ground (arith, remove_absent k d)

  pub remove-put : (k : K) (v : V) (d : Dict K V) → get k d ≡ none → remove k (put k v d) ≡ d
  unfolding get put remove
  remove-put k v [] h = ground (arith, e.beq_iff k k)
  remove-put k v ((j, w) ∷ d) h = ground (arith, remove-put k v d)

  abbrev pub keys : Dict K V → List K
  keys [] = []
  keys ((j, w) ∷ d) = j ∷ keys d

  pub has-eq-elem : (k : K) (d : Dict K V) → has k d ≡ elem k (keys d)
  unfolding get
  has-eq-elem k [] = ground arith
  has-eq-elem k ((j, w) ∷ d) = ground (arith, has-eq-elem k d)

  keys-put_other :
      (i k : K) (v : V) (d : Dict K V)
      → i ≢ k
      → All (λ j. i ≢ j) (keys d)
      → All (λ j. i ≢ j) (keys (put k v d))
  unfolding put
  keys-put_other i k v [] ne h = (ne, tt)
  keys-put_other i k v ((j, w) ∷ d) ne h = elim (Bool-cases (e.beq j k)) [
    | inl same ↦ rw same h
    | inr other ↦ rw other (h.0, keys-put_other i k v d ne h.1)
  ]

  -- A dictionary holds each key once, however it was filled.
  pub put-Distinct :
      (k : K) (v : V) (d : Dict K V) → Distinct (keys d) → Distinct (keys (put k v d))
  unfolding put
  put-Distinct k v [] h = (tt, tt)
  put-Distinct k v ((j, w) ∷ d) h = elim (Bool-cases (e.beq j k)) [
    | inl same ↦ rw same h
    | inr other ↦
        rw other (
          keys-put_other j k v d (λ same. ground (arith, e.beq_iff j k)) h.0,
          put-Distinct k v d h.1,
        )
  ]

  -- A property of what every key is mapped to is one of every entry, and the other way round.
  pub All_of_get {μ} :
      (P : K × V → Type μ) (d : Dict K V)
      → Distinct (keys d)
      → ((k : K) (v : V) → get k d ≡ some v → P (k, v))
      → All P d
  unfolding get
  All_of_get P [] h f = tt
  All_of_get P ((j, w) ∷ d) h f = (
    f j w (ground (arith, e.beq_iff j j)),
    All_of_get P d h.1 (λ k v found. f k v (rw (absent k v found) found)),
  )
    where
      absent : (k : K) (v : V) → get k d ≡ some v → e.beq j k ≡ false
      absent k v found = ground (arith, e.beq_iff j k, has-eq-elem k d, not-elem j (keys d) h.0)

  pub get_of_All {μ} :
      (P : K × V → Type μ) (d : Dict K V) (k : K) (v : V) → All P d → get k d ≡ some v → P (k, v)
  unfolding get
  get_of_All P [] k v h found = absurd (ground arith)
  get_of_All P ((j, w) ∷ d) k v h found = elim (Bool-cases (e.beq j k)) [
    | inl same ↦ subst P (ground (arith, e.beq_iff j k)) h.0
    | inr other ↦ get_of_All P d k v h.1 (ground arith)
  ]

  -- Keys that are not in a dictionary after a write are not the written key, and were not in it.
  pub put-fresh :
      (k : K) (v : V) (d : Dict K V) (ks : List K)
      → All (λ j. has j (put k v d) ≡ false) ks
      → All (λ j. k ≢ j) ks × All (λ j. has j d ≡ false) ks
  put-fresh k v d [] h = (tt, tt)
  put-fresh k v d (j ∷ ks) h =
      let (others, before) = put-fresh k v d ks h.1 in
      (
        (λ same. ground (arith, h.0, get-put k j v d, e.beq_iff k j), others),
        (ground (arith, h.0, get-put k j v d), before),
      )

  pub fresh-put :
      (k : K) (v : V) (d : Dict K V) (ks : List K)
      → All (λ j. k ≢ j) ks
      → All (λ j. has j d ≡ false) ks
      → All (λ j. has j (put k v d) ≡ false) ks
  fresh-put k v d [] ne h = tt
  fresh-put k v d (j ∷ ks) ne h =
      (ground (arith, h.0, ne.0, get-put k j v d, e.beq_iff k j), fresh-put k v d ks ne.1 h.1)
