-- ===== src/Package/Dag/Graph.antt =====
-- What the code calls of petgraph's `Acyclic<DiGraph<N, E>>`, with its documented behaviour:
-- nodes are numbered in the order in which they are added, a refused edge changes nothing, and an
-- edge is refused only if it would close a cycle.
use butido.Prelude.{ℕ, ◌≡◌, Option, none, some, List, [], ◌∷◌, ◌++◌, length, In}

-- A way along edges, of one edge or more.
pub data PathIn {E : Type 0} (es : List (ℕ × ℕ × E)) : ℕ → ℕ → Type 0 where
  edge : {a b : ℕ} {e : E} → In (a, b, e) es → PathIn es a b
  join : {a b c : ℕ} → PathIn es a b → PathIn es b c → PathIn es a c

pub record AcyclicGraph (N E : Type 0) : Type 1 where
  pub Graph : Type 0
  pub nodes : Graph → List N
  pub edges : Graph → List (ℕ × ℕ × E)
  pub empty : Graph
  pub add_node : Graph → N → Graph × ℕ
  pub try_add_edge : Graph → ℕ → ℕ → E → Option Graph
  pub nodes-empty : nodes empty ≡ []
  pub edges-empty : edges empty ≡ []
  pub index-add_node : (g : Graph) (n : N) → (add_node g n).1 ≡ length (nodes g)
  pub nodes-add_node : (g : Graph) (n : N) → nodes (add_node g n).0 ≡ nodes g ++ n ∷ []
  pub edges-add_node : (g : Graph) (n : N) → edges (add_node g n).0 ≡ edges g
  pub nodes-try_add_edge :
      (g h : Graph) (a b : ℕ) (e : E) → try_add_edge g a b e ≡ some h → nodes h ≡ nodes g
  pub edges-try_add_edge :
      (g h : Graph) (a b : ℕ) (e : E)
      → try_add_edge g a b e ≡ some h
      → edges h ≡ edges g ++ (a, b, e) ∷ []
  pub refusal :
      (g : Graph) (a b : ℕ) (e : E)
      → try_add_edge g a b e ≡ none
      → PathIn (edges g ++ (a, b, e) ∷ []) a a
