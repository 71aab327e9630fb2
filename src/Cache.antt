-- ===== src/Cache.antt =====
-- src/formshift_server/cache.py: the keys and the store of node results. Hashing and printing are the
-- library's (`hashlib`, `json`): `Hashes` has the digest of bytes, as hexadecimal text, and the
-- canonical JSON text of a document, in UTF-8.
use formshift_server.Prelude.{String, Bool, Option, List, [], ◌∷◌, ◌≡◌, ◌≢◌, string_eq}
use formshift_server.Prelude.Dict
use formshift_server.Prelude.Dict.{Dict}
use formshift_server.Json.{Bytes, Json, bool, str, arr, obj, Items, nil, cons, Fields, end, field}
use formshift_server.Modules.{ModuleResult}

-- `blake2b(_, digest_size=16).hexdigest()`, and `json.dumps` with sorted keys and without spaces,
-- encoded.
pub record Hashes : Type 0 where
  pub digest : Bytes → String
  pub dumps : Json → Bytes

-- `content_hash`
abbrev pub content_hash : Hashes → Bytes → String
content_hash h content = h.digest content

abbrev pub text_items : List String → Items
text_items [] = nil
text_items (x ∷ xs) = cons (str x) (text_items xs)

-- The document of a recipe.
abbrev pub recipe_document :
    (name version : String) (params : Fields) (input_keys : List String) (draft : Bool) → Json
recipe_document name version params input_keys draft = obj (
    field "module" (str name) (
      field "version" (str version) (
        field "params" (obj params)
          (field "inputs" (arr (text_items input_keys)) (field "draft" (bool draft) end)))))

-- `recipe_key`
abbrev pub recipe_key :
    Hashes
    → (name version : String) (params : Fields) (input_keys : List String) (draft : Bool) → String
recipe_key h name version params input_keys draft =
    h.digest (h.dumps (recipe_document name version params input_keys draft))

-- No two hashed texts collide, and the text of a recipe tells the parts of its document, the
-- parameters as they are printed.
pub record IsCollisionFree (h : Hashes) : Type 0 where
  pub bytes : (a b : Bytes) → h.digest a ≡ h.digest b → a ≡ b
  pub recipe :
      (n m v w : String) (p q : Fields) (ks ls : List String) (c d : Bool)
      → h.dumps (recipe_document n v p ks c) ≡ h.dumps (recipe_document m w q ls d)
      → (n ≡ m) × (v ≡ w) × (h.dumps (obj p) ≡ h.dumps (obj q)) × (ks ≡ ls) × (c ≡ d)

-- Bytes that are not the text of a recipe. The digest does not tell a payload with that text from
-- the recipe.
abbrev pub IsPlain : Hashes → Bytes → Type 0
IsPlain h content =
    (n v : String) (p : Fields) (ks : List String) (d : Bool)
    → content ≢ h.dumps (recipe_document n v p ks d)

-- The results of one node: a result for each output port.
abbrev pub Results : Type 0
Results = Dict String ModuleResult

-- `ResultCache`; each method holds the lock, so it is one step.
abbrev pub ResultCache : Type 0
ResultCache = Dict String Results

unfoldable pub cache_get : String → ResultCache → Option Results
cache_get key cache = Dict.get key cache

unfoldable pub cache_put : String → Results → ResultCache → ResultCache
cache_put key results cache = Dict.put key results cache
