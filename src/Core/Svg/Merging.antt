-- ===== src/Core/Svg/Merging.antt =====
-- Merges of more than two documents by `SvgMergeModule` (src/formshift_server/core/color.py), in
-- either nesting.
use formshift_server.Prelude.{
  [], ◌∷◌, String, false, ◌≡◌, refl, sym, ◌==◌, string_eq, Bool-cases, inl, inr, arith, none, some,
  ok, err, Result, ◌>>=◌, if◌then◌else◌, ap, ◌∙◌,
}
use formshift_server.Prelude.Dict
use formshift_server.Prelude.Dict.{Dict}
use formshift_server.Json.{Fields, Bytes}
use formshift_server.Modules.{RunError, other_error}
use formshift_server.Core.{Results}
use formshift_server.Core.Svg.{
  Element, element, Elements, no_elements, more, Xml, tag_of, metadata_tag, append_child, stack,
  merge, parse_svg, svg_result, merge_run,
}

-- Stacking on top of appended children is appending what was stacked.
stack-append :
    (a b : Elements) (child : Element)
    → stack a (append_child b child)
      ≡ (if tag_of child == metadata_tag then stack a b else append_child (stack a b) child)
unfolding stack append_child
stack-append a no_elements child = elim (Bool-cases (tag_of child == metadata_tag)) [
  | inl e ↦ rw e refl
  | inr e ↦ rw e refl
]
stack-append a (more c b) child =
    stack-append (if tag_of c == metadata_tag then a else append_child a c) b child

stack_assoc : (a b c : Elements) → stack (stack a b) c ≡ stack a (stack b c)
unfolding stack
stack_assoc a b no_elements = refl
stack_assoc a b (more child c) = elim (Bool-cases (tag_of child == metadata_tag)) [
  | inl e ↦ rw e (stack_assoc a b c)
  | inr e ↦
      let step : stack a (append_child b child) ≡ append_child (stack a b) child =
        stack-append a b child ∙ rw e refl in
      rw (e, ← step) (stack_assoc a (append_child b child) c)
]

pub merge_assoc : (a b c : Element) → merge (merge a b) c ≡ merge a (merge b c)
unfolding merge
merge_assoc (element t x y s a) (element u z w r b) (element v p q m c) =
    ap (element t x y s) (stack_assoc a b c)

-- The inputs of a merge.
abbrev pub layers : (under over : Bytes) → Dict String Bytes
layers under over = ("under", under) ∷ ("over", over) ∷ []

-- What `SvgMergeModule` returns for two documents.
abbrev pub merged : Xml → (under over : Bytes) → Result RunError Results
merged xml under over = merge_run xml (layers under over) Fields.end false

merged_lem :
    (xml : Xml) (under over : Bytes) (a b : Element)
    → xml.read under ≡ some a
    → xml.read over ≡ some b
    → merged xml under over ≡ ok (svg_result xml (merge a b))
unfolding merge_run parse_svg Dict.get
merged_lem xml under over a b is_a is_b = ground (arith, is_a, is_b)

-- The document of a result.
abbrev pub document : Results → Result RunError Bytes
document results = elim (Dict.get "svg" results) [
  | none ↦ err (other_error "KeyError")
  | some result ↦ ok result.content
]

module _ (xml : Xml) (first second third : Bytes) where
  -- The first two documents are merged, and the third is laid over the result.
  abbrev pub left_nested : Result RunError Results
  left_nested = merged xml first second >>= λ r. document r >>= λ under. merged xml under third

  -- The last two documents are merged, and the result is laid over the first.
  abbrev pub right_nested : Result RunError Results
  right_nested = merged xml second third >>= λ r. document r >>= λ over. merged xml first over

  -- Where three documents parse to trees, and the two merges that are written in between read back
  -- as they were, the two nestings of merges give the same document, the one of the merged trees.
  pub merge_run-nested :
      (a b c : Element)
      → xml.read first ≡ some a
      → xml.read second ≡ some b
      → xml.read third ≡ some c
      → xml.read (xml.write (merge a b)) ≡ some (merge a b)
      → xml.read (xml.write (merge b c)) ≡ some (merge b c)
      → (left_nested ≡ ok (svg_result xml (merge a (merge b c)))) × (left_nested ≡ right_nested)
  unfolding Dict.get
  merge_run-nested a b c is_a is_b is_c is_ab is_bc =
      let left : left_nested ≡ ok (svg_result xml (merge a (merge b c))) =
        rw
          (
            merged_lem xml first second a b is_a is_b,
            merged_lem xml (xml.write (merge a b)) third (merge a b) c is_ab is_c,
            merge_assoc a b c,
          )
          refl in
      let right : right_nested ≡ ok (svg_result xml (merge a (merge b c))) =
        rw
          (
            merged_lem xml second third b c is_b is_c,
            merged_lem xml first (xml.write (merge b c)) a (merge b c) is_a is_bc,
          )
          refl in
      (left, left ∙ sym right)
