-- ===== src/Json.antt =====
-- JSON documents as `json.loads` returns them, and the payload bytes. A float is kept as its text:
-- the modelled code never computes with one.
use formshift_server.Prelude.{
  ℕ, String, Bool, Option, none, some, List, [], ◌∷◌, ◌==◌, string_eq, if◌then◌else◌, zero, suc,
  true, false, not, ◌||◌,
}

abbrev pub Bytes : Type 0
Bytes = List ℕ

mutual
  pub data Json : Type 0 where
    null : Json
    bool : Bool → Json
    int : (negative : Bool) (magnitude : ℕ) → Json
    float : String → Json
    str : String → Json
    arr : Items → Json
    obj : Fields → Json

  pub data Items : Type 0 where
    nil : Items
    cons : Json → Items → Items

  pub data Fields : Type 0 where
    end : Fields
    field : String → Json → Fields → Fields

-- `d.get(name)` on a parsed object.
unfoldable pub field? : String → Fields → Option Json
field? k end = none
field? k (field j v fs) = if j == k then some v else field? k fs

abbrev pub items : Items → List Json
items nil = []
items (cons x xs) = x ∷ items xs

-- Python's truth of a value.
unfoldable pub is_truthy : Json → Bool
is_truthy null = false
is_truthy (bool b) = b
is_truthy (int negative zero) = false
is_truthy (int negative (suc n)) = true
is_truthy (float text) = not ((text == "0.0") || (text == "-0.0"))
is_truthy (str text) = not (text == "")
is_truthy (arr nil) = false
is_truthy (arr (cons x xs)) = true
is_truthy (obj end) = false
is_truthy (obj (field k v fs)) = true
