-- ===== src/Prelude/Lists.antt =====
-- Lists: lengths and positions by native numbers, and predicates by recursion.
use Prim.Native.Nat.{ℕ, zero, suc, ◌+◌, ◌<◌, ◌≤◌}
use mathlib.Core.Path.{◌≡◌, sym, subst}
use mathlib.Core.Logic.{◌≢◌, inl, inr}
use mathlib.Core.List.{Memᴰ}
use mathlib.Core.List.Memᴰ
use mathlib.Core.Bool.{Bool, true, false, ◌||◌}
use mathlib.Core.List.{List, [], ◌∷◌, ◌++◌}
use mathlib.Core.Option.{Option, none, some}
use native.Mathlib.Omega.{arith}
use formshift_server.Prelude.Tests.{if◌then◌else◌, Bool-cases}
use formshift_server.Prelude.Keys.{Eq}

module _ {ℓ} {A : Type ℓ} where
  abbrev pub length : List A → ℕ
  length [] = 0
  length (x ∷ xs) = suc (length xs)

  abbrev pub get_elem? : List A → ℕ → Option A
  get_elem? [] i = none
  get_elem? (x ∷ xs) zero = some x
  get_elem? (x ∷ xs) (suc i) = get_elem? xs i

  abbrev pub take : ℕ → List A → List A
  take zero xs = []
  take (suc n) [] = []
  take (suc n) (x ∷ xs) = x ∷ take n xs

  abbrev pub drop : ℕ → List A → List A
  drop zero xs = xs
  drop (suc n) [] = []
  drop (suc n) (x ∷ xs) = drop n xs

  abbrev pub is_empty : List A → Bool
  is_empty [] = true
  is_empty (x ∷ xs) = false

  pub length-append : (xs ys : List A) → length (xs ++ ys) ≡ length xs + length ys
  length-append [] ys = omega arith
  length-append (x ∷ xs) ys = omega (arith, length-append xs ys)

  -- Every element satisfies `P`.
  abbrev pub All {κ} : (A → Type κ) → List A → Type κ
  All P [] = Unit
  All P (x ∷ xs) = P x × All P xs

  pub All-append {κ} : (P : A → Type κ) (xs ys : List A) → All P xs → All P ys → All P (xs ++ ys)
  All-append P [] ys hx hy = hy
  All-append P (x ∷ xs) ys hx hy = (hx.0, All-append P xs ys hx.1 hy)

  -- No element occurs twice.
  abbrev pub Distinct : List A → Type ℓ
  Distinct [] = Unit
  Distinct (x ∷ xs) = All (λ y. x ≢ y) xs × Distinct xs

module _ {ℓ} {A : Type ℓ} ⦃e : Eq A⦄ where
  abbrev pub elem : A → List A → Bool
  elem a [] = false
  elem a (x ∷ xs) = e.beq x a || elem a xs

  abbrev pub count : A → List A → ℕ
  count a [] = 0
  count a (x ∷ xs) = let n = count a xs in if e.beq x a then suc n else n

module _ {ℓ} {A : Type ℓ} where
  pub All-map_of {κ μ} :
      {P : A → Type κ} {Q : A → Type μ} (xs : List A) → ((x : A) → P x → Q x) → All P xs → All Q xs
  All-map_of [] f h = tt
  All-map_of (x ∷ xs) f h = (f x h.0, All-map_of xs f h.1)

  pub All-always {κ} : (P : A → Type κ) (xs : List A) → ((x : A) → P x) → All P xs
  All-always P [] f = tt
  All-always P (x ∷ xs) f = (f x, All-always P xs f)

  pub append-eq-nil : (xs ys : List A) → xs ++ ys ≡ [] → (xs ≡ []) × (ys ≡ [])
  append-eq-nil [] ys h = (ground arith, h)
  append-eq-nil (x ∷ xs) ys h = absurd (ground arith)

module _ {ℓ} {A : Type ℓ} ⦃e : Eq A⦄ where
  pub elem-append : (a : A) (xs ys : List A) → elem a (xs ++ ys) ≡ (elem a xs || elem a ys)
  elem-append a [] ys = ground arith
  elem-append a (x ∷ xs) ys = ground (arith, elem-append a xs ys)

  pub not-elem : (a : A) (xs : List A) → All (λ y. a ≢ y) xs → elem a xs ≡ false
  not-elem a [] h = ground arith
  not-elem a (x ∷ xs) h = ground (arith, not-elem a xs h.1, e.beq_iff x a)

  pub not-elem_inv : (a : A) (xs : List A) → elem a xs ≡ false → All (λ y. a ≢ y) xs
  not-elem_inv a [] h = tt
  not-elem_inv a (x ∷ xs) h =
      (λ same. ground (arith, e.beq_iff x a), not-elem_inv a xs (ground arith))

  pub count-append : (a : A) (xs ys : List A) → count a (xs ++ ys) ≡ count a xs + count a ys
  count-append a [] ys = omega arith
  count-append a (x ∷ xs) ys = ground (arith, count-append a xs ys)

  -- A predicate that holds of every element holds of one that is found.
  pub All-elem {κ} : (P : A → Type κ) (a : A) (xs : List A) → All P xs → elem a xs ≡ true → P a
  All-elem P a [] h m = absurd (ground arith)
  All-elem P a (x ∷ xs) h m = elim (Bool-cases (e.beq x a)) [
    | inl same ↦ subst P ((e.beq_iff x a).0 same) h.0
    | inr other ↦ All-elem P a xs h.1 (ground arith)
  ]

  -- The index of the first occurrence; the length where there is none.
  abbrev pub position : A → List A → ℕ
  position a [] = 0
  position a (x ∷ xs) = let rest = position a xs in if e.beq x a then 0 else suc rest

  pub position-lt-of_elem :
      (a : A) (xs ys : List A) → elem a xs ≡ true → position a (xs ++ ys) < length xs
  position-lt-of_elem a [] ys h = absurd (ground arith)
  position-lt-of_elem a (x ∷ xs) ys h = ground (arith, position-lt-of_elem a xs ys)

  pub position-ge-of_not-elem :
      (a : A) (xs ys : List A) → elem a xs ≡ false → length xs ≤ position a (xs ++ ys)
  position-ge-of_not-elem a [] ys h = omega arith
  position-ge-of_not-elem a (x ∷ xs) ys h = ground (arith, position-ge-of_not-elem a xs ys)

module _ {ℓ} {A : Type ℓ} where
  pub All-mem {κ} : (P : A → Type κ) (a : A) (xs : List A) → All P xs → Memᴰ a xs → P a
  All-mem P a [] h m = elim m [ ]
  All-mem P a (x ∷ xs) h m = elim (Memᴰ.cases_cons m) [
    | inl same ↦ subst P (sym same) h.0
    | inr later ↦ All-mem P a xs h.1 later
  ]
