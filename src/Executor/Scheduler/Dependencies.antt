-- ===== src/Executor/Scheduler/Dependencies.antt =====
-- The dictionaries that `execute_graph` (src/formshift_server/executor.py) fills from the edges.
use formshift_server.Prelude.{
  String, Bool, true, false, ◌&&◌, ◌||◌, none, some, List, [], ◌∷◌, ◌++◌, map, ◌≡◌, refl, ◌∙◌, inl,
  inr, string_eq, eq_iff, elem, elem-append, not-elem, count, All, All-append, Distinct, ok,
  Bool-cases, Option-cases, arith, if◌then◌else◌,
}
use formshift_server.Prelude.Dict
use formshift_server.Prelude.Dict.{get-put, put-Distinct, has-eq-elem}
use formshift_server.Graph.{Edge, Node}
use formshift_server.Executor.Scheduler.{Links, no_links, set_add, add_link, add_links, free_nodes}
use formshift_server.Executor.Scheduler.Discard.{is_free}
use formshift_server.Executor.Scheduler.Turns.{has_edge}

-- The sets of a dictionary with the given keys hold the given relation.
pub record Covers (ids : List String) (rel : String → String → Bool) (links : Links) : Type 0 where
  pub unique : Distinct (Dict.keys links)
  pub keys : (n : String) → Dict.has n links ≡ elem n ids
  pub members :
      (n : String) (xs : List String)
      → Dict.get n links ≡ some xs
      → (p : String) → elem p xs ≡ rel n p
  pub distinct : (n : String) (xs : List String) → Dict.get n links ≡ some xs → Distinct xs

elem-set_add :
    (p x : String) (xs : List String) → elem p (set_add x xs) ≡ (elem p xs || string_eq.beq x p)
elem-set_add p x xs = ground (arith, eq_iff x p, elem-append p xs (x ∷ []))

Distinct-snoc :
    (x : String) (xs : List String) → elem x xs ≡ false → Distinct xs → Distinct (xs ++ x ∷ [])
Distinct-snoc x [] h d = (tt, tt)
Distinct-snoc x (y ∷ ys) h d = (
  All-append _ ys (x ∷ []) d.0 (λ same. ground (arith, eq_iff y x), tt),
  Distinct-snoc x ys (ground arith) d.1,
)

set_add-Distinct : (x : String) (xs : List String) → Distinct xs → Distinct (set_add x xs)
set_add-Distinct x xs d = elim (Bool-cases (elem x xs)) [
  | inl e ↦ rw e d
  | inr e ↦ rw e (Distinct-snoc x xs e d)
]

Covers-rel :
    (ids : List String) (r s : String → String → Bool) (links : Links)
    → ((n p : String) → r n p ≡ s n p)
    → Covers ids r links
    → Covers ids s links
Covers-rel ids r s links same c = record {
  unique = c.unique;
  keys = c.keys;
  members = λ n xs at p. c.members n xs at p ∙ same n p;
  distinct = c.distinct;
}

module _ (ids : List String) where
  record Adds (from to : String) (rel : String → String → Bool) (links : Links) : Type 0 where
    after : Links
    runs : add_link from to links ≡ ok after
    covers : Covers ids (λ n p. rel n p || (string_eq.beq from n && string_eq.beq to p)) after

  add_link-Adds :
      (from to : String) (rel : String → String → Bool) (links : Links)
      → elem from ids ≡ true
      → Covers ids rel links
      → Adds from to rel links
  unfolding add_link
  add_link-Adds from to rel links known c = elim (Option-cases (Dict.get from links)) [
    | inl e ↦ absurd (ground (arith, c.keys from, e))
    | inr (old, e) ↦ record {
      after = Dict.put from (set_add to old) links;
      runs = rw (e, add_link) refl;
      covers = record {
        unique = put-Distinct from (set_add to old) links c.unique;
        keys = λ n. ground (
          arith,
          e,
          c.keys n,
          c.keys from,
          eq_iff from n,
          get-put {V = List String} from n (set_add to old) links,
        );
        members = λ n xs at p. elim (Bool-cases (string_eq.beq from n)) [
          | inl same ↦
              let is_n : from ≡ n = (eq_iff from n).0 same in
              let is_xs : set_add to old ≡ xs =
                ground (arith, at, same, get-put {V = List String} from n (set_add to old) links) in
              let was : elem p old ≡ rel from p = c.members from old e p in
              rw (← is_xs, ← is_n) (elem-set_add p to old ∙ ground (arith, was, eq_iff from from))
          | inr other ↦
              let at' : Dict.get n links ≡ some xs =
                ground
                  (arith, at, other, get-put {V = List String} from n (set_add to old) links) in
              ground (arith, other, c.members n xs at' p)
        ];
        distinct = λ n xs at. elim (Bool-cases (string_eq.beq from n)) [
          | inl same ↦
              let is_xs : set_add to old ≡ xs =
                ground (arith, at, same, get-put {V = List String} from n (set_add to old) links) in
              rw (← is_xs) (set_add-Distinct to old (c.distinct from old e))
          | inr other ↦
              c.distinct n xs
                (ground (arith, at, other, get-put {V = List String} from n (set_add to old) links))
        ];
      };
    }
  ]

  pub record Fills (es : List Edge) (rel back : String → String → Bool) (d e : Links) : Type 0 where
    pub dependencies : Links
    pub dependents : Links
    pub runs : add_links es d e ≡ ok (dependencies, dependents)
    pub sources : Covers ids (λ n p. rel n p || has_edge es p n) dependencies
    pub targets : Covers ids (λ p n. back p n || has_edge es p n) dependents

  pub add_links-Fills :
      (es : List Edge) (rel back : String → String → Bool) (d e : Links)
      → All (λ (x : Edge). (elem x.from_node ids ≡ true) × (elem x.to_node ids ≡ true)) es
      → Covers ids rel d
      → Covers ids back e
      → Fills es rel back d e
  unfolding add_links
  add_links-Fills [] rel back d e known c b = record {
    dependencies = d;
    dependents = e;
    runs = refl;
    sources = Covers-rel ids rel _ d (λ n p. ground arith) c;
    targets = Covers-rel ids back _ e (λ p n. ground arith) b;
  }
  add_links-Fills (x ∷ es) rel back d e known c b =
      let more = add_link-Adds x.to_node x.from_node rel d known.0.1 c in
      let other = add_link-Adds x.from_node x.to_node back e known.0.0 b in
      let rest = add_links-Fills es _ _ more.after other.after known.1 more.covers other.covers in
      record {
        dependencies = rest.dependencies;
        dependents = rest.dependents;
        runs = rw (more.runs, add_links, other.runs) rest.runs;
        sources = Covers-rel ids _ _ rest.dependencies (λ n p. ground arith) rest.sources;
        targets = Covers-rel ids _ _ rest.dependents (λ p n. ground arith) rest.targets;
      }

abbrev pub node_ids : List Node → List String
node_ids nodes = map (λ (n : Node). n.id) nodes

no_links-get :
    (ns : List Node) (links : Links) (n : String)
    → Dict.get n (no_links links ns) ≡ (if elem n (node_ids ns) then some [] else Dict.get n links)
unfolding no_links
no_links-get [] links n = refl
no_links-get (x ∷ ns) links n =
    no_links-get ns (Dict.put x.id [] links) n
    ∙ ground (arith, eq_iff x.id n, get-put {V = List String} x.id n [] links)

no_links-Distinct :
    (ns : List Node) (links : Links)
    → Distinct (Dict.keys links)
    → Distinct (Dict.keys (no_links links ns))
unfolding no_links
no_links-Distinct [] links d = d
no_links-Distinct (x ∷ ns) links d =
    no_links-Distinct ns (Dict.put x.id [] links) (put-Distinct x.id [] links d)

pub no_links-Covers : (ns : List Node) → Covers (node_ids ns) (λ n p. false) (no_links [] ns)
no_links-Covers ns = record {
  unique = no_links-Distinct ns [] tt;
  keys = λ n. ground (arith, no_links-get ns [] n, nothing n);
  members = λ n xs at p.
      let e : [] ≡ xs = ground (arith, at, no_links-get ns [] n, nothing n) in rw (← e) refl;
  distinct = λ n xs at.
      let e : [] ≡ xs = ground (arith, at, no_links-get ns [] n, nothing n) in rw (← e) tt;
}
  where
    nothing : (n : String) → Dict.get {V = List String} n [] ≡ none
    nothing n = unfold Dict.get in refl

pub count-free_nodes :
    (n : String) (links : Links)
    → Distinct (Dict.keys links)
    → count n (free_nodes links) ≡ is_free n links
unfolding free_nodes Dict.get
count-free_nodes n [] d = refl
count-free_nodes n ((m, deps) ∷ links) d = elim (Bool-cases (string_eq.beq m n)) [
  | inl same ↦
      let gone : Dict.has m links ≡ false =
        ground (arith, has-eq-elem {V = List String} m links, not-elem m (Dict.keys links) d.0) in
      let is_n : m ≡ n = (eq_iff m n).0 same in
      rw (← is_n) (ground (arith, gone, eq_iff m m, rw (← is_n) at (count-free_nodes n links d.1)))
  | inr other ↦ ground (arith, other, count-free_nodes n links d.1)
]
