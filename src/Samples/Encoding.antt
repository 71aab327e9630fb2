-- ===== src/Samples/Encoding.antt =====
-- A digest and a JSON text that do not collide, since they can be read back. A list is written as its
-- members, each behind an `x`, and a `y` at its end; the text of a recipe has its parameters last.
use Prim.Native.String.{◌∷◌}
use Prim.Native.Char.{Char, code}
use text.Mathlib.TextEquality.{Char-path}
use formshift_server.Prelude.{
  ℕ, zero, suc, String, Bool, true, false, List, ◌≡◌, ◌≢◌, refl, ap, sym, arith,
}
use formshift_server.Json.{Bytes, Json, bool, str, arr, obj, Items, cons, Fields, end, field}
use formshift_server.Cache.{Hashes, IsCollisionFree, text_items, recipe_document}

abbrev more : Char
more = "x"

abbrev done : Char
done = "y"

abbrev head_code : String → ℕ
head_code String.[] = 0
head_code (c ∷ s) = code c

more-ne-done : (s t : String) → ◌≢◌ {A = String} (more ∷ s) (done ∷ t)
more-ne-done s t e = let k : code more ≡ code done = ap head_code e in absurd (ground (arith, k))

abbrev write_ℕ : ℕ → String → String
write_ℕ zero rest = done ∷ rest
write_ℕ (suc n) rest = more ∷ write_ℕ n rest

abbrev write_list {ℓ} : {A : Type ℓ} → (A → String → String) → List A → String → String
write_list write List.[] rest = done ∷ rest
write_list write (List.◌∷◌ x xs) rest = more ∷ write x (write_list write xs rest)

-- What is written can be read back, whatever follows it.
abbrev Readable {ℓ} : {A : Type ℓ} → (A → String → String) → Type ℓ
Readable {A = A} write = (a b : A) (r s : String) → write a r ≡ write b s → (a ≡ b) × (r ≡ s)

write_ℕ-Readable : Readable write_ℕ
write_ℕ-Readable zero zero a b e = (refl, cc e)
write_ℕ-Readable zero (suc n) a b e = absurd (more-ne-done _ _ (sym e))
write_ℕ-Readable (suc m) zero a b e = absurd (more-ne-done _ _ e)
write_ℕ-Readable (suc m) (suc n) a b e =
    let k : write_ℕ m a ≡ write_ℕ n b = cc e in
    let (rest, after) = write_ℕ-Readable m n a b k in (cc rest, after)

write_list-Readable {ℓ} :
    {A : Type ℓ} (write : A → String → String) → Readable write → Readable (write_list write)
write_list-Readable write readable List.[] List.[] a b e = (refl, cc e)
write_list-Readable write readable List.[] (List.◌∷◌ y ys) a b e = absurd (more-ne-done _ _ (sym e))
write_list-Readable write readable (List.◌∷◌ x xs) List.[] a b e = absurd (more-ne-done _ _ e)
write_list-Readable write readable (List.◌∷◌ x xs) (List.◌∷◌ y ys) a b e =
    let k : write x (write_list write xs a) ≡ write y (write_list write ys b) = cc e in
    let (head, rest) = readable x y _ _ k in
    let (others, after) = write_list-Readable write readable xs ys a b rest in
    (cc (head, others), after)

-- A byte, before other bytes.
abbrev byte : ℕ → Bytes → Bytes
byte n rest = List.◌∷◌ n rest

abbrev text_bytes : String → Bytes → Bytes
text_bytes String.[] rest = byte 0 rest
text_bytes (c ∷ s) rest = byte 1 (byte (code c) (text_bytes s rest))

abbrev items_bytes : Items → Bytes → Bytes
items_bytes (cons (str s) xs) rest = byte 1 (text_bytes s (items_bytes xs rest))
items_bytes _ rest = byte 0 rest

abbrev Bool_bytes : Bool → Bytes → Bytes
Bool_bytes true rest = byte 1 rest
Bool_bytes false rest = byte 0 rest

-- Only the text of a recipe is looked at.
abbrev dumps : Json → Bytes
dumps
      (obj (
        field _
          (str n)
          (field _ (str v) (field _ params (field _ (arr ks) (field _ (bool d) end)))))) =
    byte 2 (text_bytes n (text_bytes v (items_bytes ks (Bool_bytes d (dumps params)))))
dumps _ = List.[]

text_bytes-read : (s t : String) (a b : Bytes) → text_bytes s a ≡ text_bytes t b → (s ≡ t) × (a ≡ b)
text_bytes-read String.[] String.[] a b e = (refl, ground arith)
text_bytes-read String.[] (d ∷ t) a b e = absurd (ground arith)
text_bytes-read (c ∷ s) String.[] a b e = absurd (ground arith)
text_bytes-read (c ∷ s) (d ∷ t) a b e =
    let head : c ≡ d = Char-path c d (ground arith) in
    let k : text_bytes s a ≡ text_bytes t b = ground arith in
    let (rest, after) = text_bytes-read s t a b k in (λ i. head i ∷ rest i, after)

items_bytes-read :
    (ks ls : List String) (a b : Bytes)
    → items_bytes (text_items ks) a ≡ items_bytes (text_items ls) b
    → (ks ≡ ls) × (a ≡ b)
items_bytes-read List.[] List.[] a b e = (refl, ground arith)
items_bytes-read List.[] (List.◌∷◌ l ls) a b e = absurd (ground arith)
items_bytes-read (List.◌∷◌ k ks) List.[] a b e = absurd (ground arith)
items_bytes-read (List.◌∷◌ k ks) (List.◌∷◌ l ls) a b e =
    let (head, rest) = text_bytes-read k l _ _ (ground arith) in
    let (others, after) = items_bytes-read ks ls a b rest in
    (λ i. List.◌∷◌ (head i) (others i), after)

Bool_bytes-read : (c d : Bool) (a b : Bytes) → Bool_bytes c a ≡ Bool_bytes d b → (c ≡ d) × (a ≡ b)
Bool_bytes-read true true a b e = (refl, ground arith)
Bool_bytes-read false false a b e = (refl, ground arith)
Bool_bytes-read true false a b e = absurd (ground arith)
Bool_bytes-read false true a b e = absurd (ground arith)

abbrev pub hashes : Hashes
hashes = record { digest = λ content. write_list write_ℕ content String.[]; dumps = dumps }

recipe_read :
    (n m v w : String) (p q : Fields) (ks ls : List String) (c d : Bool)
    → dumps (recipe_document n v p ks c) ≡ dumps (recipe_document m w q ls d)
    → (n ≡ m) × (v ≡ w) × (dumps (obj p) ≡ dumps (obj q)) × (ks ≡ ls) × (c ≡ d)
recipe_read n m v w p q ks ls c d e =
    let (name, e1) = text_bytes-read n m _ _ (ground arith) in
    let (version, e2) = text_bytes-read v w _ _ e1 in
    let (keys, e3) = items_bytes-read ks ls _ _ e2 in
    let (draft, params) = Bool_bytes-read c d _ _ e3 in (name, version, params, keys, draft)

pub hashes-IsCollisionFree : IsCollisionFree hashes
hashes-IsCollisionFree = record {
  bytes = λ a b e. (write_list-Readable write_ℕ write_ℕ-Readable a b String.[] String.[] e).0;
  recipe = recipe_read;
}

-- The text of a recipe begins with 2.
pub hashes-plain :
    (n v : String) (p : Fields) (ks : List String) (d : Bool)
    → ◌≢◌ {A = Bytes} (byte 1 (byte 2 List.[])) (hashes.dumps (recipe_document n v p ks d))
hashes-plain n v p ks d e = absurd (ground arith)
