-- ===== src/Executor/Scheduler/Schedule.antt =====
-- The scheduling of a valid graph (src/formshift_server/executor.py).
use mathlib.Core.List.{Memᴰ}
use mathlib.Core.List.Memᴰ
use formshift_server.Prelude.{
  ℕ, zero, suc, ◌≤◌, ◌<◌, String, Bool, true, false, not, ◌&&◌, ◌||◌, Option, none, List, [], ◌∷◌,
  length, ◌≡◌, refl, sym, ap, ◌∙◌, inl, inr, string_eq, eq_iff, elem, count, is_empty, All,
  All-map_of, ok, Bool-cases, Option-cases, arith,
}
use formshift_server.Prelude.Dict
use formshift_server.Modules.{Registry, Module}
use formshift_server.Sessions.{Session}
use formshift_server.Graph.{Edge, Node, Graph}
use formshift_server.Graph.Validate.Spec.{IsValid, HasModule}
use formshift_server.Executor.{Failure}
use formshift_server.Executor.Scheduler.{Loop, is_idle, no_links, first_state, schedule}
use formshift_server.Executor.Scheduler.Turns.{
  has_edge, left_of, elem-of_count, AreDependents, InTurn,
}
use formshift_server.Executor.Scheduler.Completion.{IsWait, unfinished, turns-Ends}
use formshift_server.Executor.Scheduler.Dependencies.{
  Fills, add_links-Fills, node_ids, no_links-Covers, count-free_nodes,
}

elem-of_HasModule :
    (registry : Registry) (ns : List Node) (id : String) (m : Module)
    → HasModule registry ns id m
    → elem id (node_ids ns) ≡ true
elem-of_HasModule registry ns id m has = among ns has.node has.member has.named
  where
    among : (xs : List Node) (x : Node) → Memᴰ x xs → x.id ≡ id → elem id (node_ids xs) ≡ true
    among [] x m e = elim m [ ]
    among (y ∷ ys) x m e = elim (Memᴰ.cases_cons m) [
      | inl same ↦
          let k : y.id ≡ id = ap (λ (n : Node). n.id) (sym same) ∙ e in
          ground (arith, eq_iff y.id id)
      | inr later ↦ ground (arith, among ys x later e)
    ]

abbrev Joins : List Edge → List String → Type 0
Joins es ids = All (λ (x : Edge). (elem x.from_node ids ≡ true) × (elem x.to_node ids ≡ true)) es

has_edge-closed :
    (es : List Edge) (ids : List String)
    → Joins es ids
    → (p n : String) → has_edge es p n ≡ true
    → (elem p ids ≡ true) × (elem n ids ≡ true)
has_edge-closed [] ids known p n h = absurd (ground arith)
has_edge-closed (e ∷ es) ids known p n h =
    elim (Bool-cases (string_eq.beq e.from_node p && string_eq.beq e.to_node n)) [
      | inl here ↦
          let from : e.from_node ≡ p = ground (arith, eq_iff e.from_node p) in
          let to : e.to_node ≡ n = ground (arith, eq_iff e.to_node n) in
          (rw (← from) known.0.0, rw (← to) known.0.1)
      | inr later ↦ has_edge-closed es ids known.1 p n (ground arith)
    ]

has_edge-rank :
    (es : List Edge) (rank : String → ℕ)
    → All (λ (e : Edge). rank e.from_node < rank e.to_node) es
    → (p n : String) → has_edge es p n ≡ true
    → rank p < rank n
has_edge-rank [] rank up p n h = absurd (ground arith)
has_edge-rank (e ∷ es) rank up p n h =
    elim (Bool-cases (string_eq.beq e.from_node p && string_eq.beq e.to_node n)) [
      | inl here ↦
          let from : e.from_node ≡ p = ground (arith, eq_iff e.from_node p) in
          let to : e.to_node ≡ n = ground (arith, eq_iff e.to_node n) in rw (← from, ← to) up.0
      | inr later ↦ has_edge-rank es rank up.1 p n (ground arith)
    ]

module _ (graph : Graph) (registry : Registry) (session : Session)
    (valid : IsValid graph registry session) where
  abbrev pub ids : List String
  ids = node_ids graph.nodes

  valid-Joins : Joins graph.edges ids
  valid-Joins =
      All-map_of graph.edges
        (λ e (t, from, to). (
          elem-of_HasModule registry graph.nodes e.from_node from.module' from.runs,
          elem-of_HasModule registry graph.nodes e.to_node to.module' to.runs,
        ))
        valid.edges_fit

  -- The dictionaries of a valid graph are filled with no exception.
  pub links :
      Fills ids graph.edges
        (λ n p. false)
        (λ p n. false)
        (no_links [] graph.nodes)
        (no_links [] graph.nodes)
  links =
      add_links-Fills ids graph.edges _ _ _ _ valid-Joins (no_links-Covers graph.nodes)
        (no_links-Covers graph.nodes)

  pub links-AreDependents : AreDependents graph.edges ids links.dependents
  links-AreDependents = record {
    lists = λ p known. elim (Option-cases (Dict.get p links.dependents)) [
      | inl e ↦ absurd (ground (arith, links.targets.keys p, known, e))
      | inr found ↦ found
    ];
    members = λ p ds at n. links.targets.members p ds at n ∙ plain (has_edge graph.edges p n);
    distinct = links.targets.distinct;
    closed = has_edge-closed graph.edges ids valid-Joins;
  }
    where
      plain : (b : Bool) → (false || b) ≡ b
      plain b = ground arith

  pub first-InTurn :
      InTurn graph.edges ids links.dependents links-AreDependents (first_state links.dependencies)
  first-InTurn = record {
    keys = links.sources.keys;
    rest = λ n deps at p. links.sources.members n deps at p ∙ plain (has_edge graph.edges p n);
    once = λ n. omega (arith, count-free_nodes n links.dependencies links.sources.unique);
  }
    where
      plain : (b : Bool) → (false || b) ≡ (b && not false)
      plain b = ground arith

  -- In an idle state all nodes of an acyclic graph have finished.
  all_finished :
      (rank : String → ℕ) (up : All (λ (e : Edge). rank e.from_node < rank e.to_node) graph.edges)
      (st : Loop)
      → InTurn graph.edges ids links.dependents links-AreDependents st
      → is_idle st ≡ true
      → (k : ℕ) (n : String) → rank n < k
      → elem n ids ≡ true
      → count n st.finished ≡ 1
  all_finished rank up st inv idle zero n below known = absurd (omega arith)
  all_finished rank up st inv idle (suc k) n below known =
      elim (Option-cases (Dict.get n st.remaining)) [
        | inl e ↦ absurd (ground (arith, inv.keys n, known, e))
        | inr ([], e) ↦ ground (arith, inv.once n, e, still st.ready st.in_flight idle)
        | inr (p ∷ ps, e) ↦
            let left : left_of graph.edges st.finished p n ≡ true =
              sym (inv.rest n (p ∷ ps) e p) ∙ ground (arith, eq_iff p p) in
            let edge : has_edge graph.edges p n ≡ true = ground (arith, left) in
            let lower : rank p < rank n = has_edge-rank graph.edges rank up p n edge in
            let done : count p st.finished ≡ 1 =
              all_finished rank up st inv idle k p (omega (arith, lower))
                (has_edge-closed graph.edges ids valid-Joins p n edge).0 in
            absurd (ground (arith, left, elem-of_count p st.finished, done))
      ]
    where
      still :
          (xs ys : List String)
          → (is_empty xs && is_empty ys) ≡ true
          → (count n xs ≡ 0) × (count n ys ≡ 0)
      still [] [] h = (refl, refl)
      still [] (y ∷ ys) h = absurd (ground arith)
      still (x ∷ xs) ys h = absurd (ground arith)

  unfinished-length : (xs : List String) (ns : List Node) → unfinished xs (node_ids ns) ≤ length ns
  unfinished-length xs [] = omega arith
  unfinished-length xs (n ∷ ns) = ground (arith, unfinished-length xs ns)

  module _ (wait : ℕ → List String → List String) (lawful : IsWait wait) where
    -- The scheduling ends, and each node of the graph has finished, once.
    pub record RunsAll (raises : String → Option Failure) (is_cancelled : ℕ → Bool) : Type 0 where
      pub last : Loop
      pub runs : schedule wait raises is_cancelled graph ≡ ok last
      pub each : (n : String) → elem n ids ≡ true → count n last.finished ≡ 1
      pub no_other : (n : String) → elem n ids ≡ false → count n last.finished ≡ 0

    -- Where no node raises and the job is not cancelled, the loop of a valid graph ends within as
    -- many turns as there are nodes, whichever futures each `wait` returns, and each node of the
    -- graph has run once.
    pub schedule-RunsAll :
        (raises : String → Option Failure) (is_cancelled : ℕ → Bool)
        → ((n : String) → raises n ≡ none)
        → ((k : ℕ) → is_cancelled k ≡ false)
        → RunsAll raises is_cancelled
    unfolding schedule
    schedule-RunsAll raises is_cancelled quiet calm =
        let end =
          turns-Ends graph.edges ids links.dependents links-AreDependents wait lawful raises
            is_cancelled quiet calm (length graph.nodes) 0 (first_state links.dependencies)
            first-InTurn (unfinished-length [] graph.nodes) in
        let (rank, up) = valid.acyclic in
        record {
          last = end.last;
          runs = rw (links.runs, schedule) end.runs;
          each = λ n known.
              all_finished rank up end.last end.inv end.idle (suc (rank n)) n (omega arith) known;
          no_other = λ n other. ground (arith, end.inv.once n, end.inv.keys n, other);
        }
