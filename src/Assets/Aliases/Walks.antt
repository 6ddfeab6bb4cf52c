-- ===== src/Assets/Aliases/Walks.antt =====
-- The walk from a menu node to its root ends, and a chain that is complete is the path from a root.

use runlet.Prelude.{
  ℕ, zero, suc, ◌+◌, ◌≤◌, ◌<◌, Bool, true, false, not, ◌≡◌, refl, sym, ap, ◌∙◌, ◌⊎◌, inl, inr,
  Option, none, some, List, [], ◌∷◌, Text, strip, ◌==◌, nat_eq, nat_beq_iff, filter, contains,
  length, Bool-cases, arith,
}
use runlet.Prelude.Values.{pos}
use runlet.Prelude.Orders.{int_eq, int_beq_iff}
use runlet.Assets.Aliases.Chains.{
  MenuNode, node_by_id, or_later, Walk, rooted, broken, endless, step_to, walk_from, walk,
  depth_continuous, labels, chain_of_walk, derive_chain_for_candidate,
}

-- The nodes whose ids were not visited.
abbrev unvisited : List MenuNode → List ℕ → ℕ
unvisited nodes visited = length (filter (λ (n : MenuNode). not (contains n.id visited)) nodes)

unvisited-le :
    (nodes : List MenuNode) (id : ℕ) (visited : List ℕ)
    → unvisited nodes (id ∷ visited) ≤ unvisited nodes visited
unfolding filter contains
unvisited-le [] id visited = omega arith
unvisited-le (n ∷ nodes) id visited = ground (arith, unvisited-le nodes id visited)

unvisited-le-length :
    (nodes : List MenuNode) (visited : List ℕ) → unvisited nodes visited ≤ length nodes
unfolding filter
unvisited-le-length [] visited = omega arith
unvisited-le-length (n ∷ nodes) visited = ground (arith, unvisited-le-length nodes visited)

or_later-some :
    (n : MenuNode) (id : ℕ) (o : Option MenuNode) (parent : MenuNode)
    → or_later n id o ≡ some parent
    → (o ≡ some parent) ⊎ ((parent ≡ n) × (n.id ≡ id))
or_later-some n id (some later) parent h = inl h
or_later-some n id none parent h = elim (Bool-cases (n.id == id)) [
  | inl e ↦ inr (ground (arith, h, e), (nat_beq_iff n.id id).0 e)
  | inr e ↦ absurd (ground (arith, h, e))
]

node_by_id-id :
    (nodes : List MenuNode) (id : ℕ) (parent : MenuNode)
    → node_by_id nodes id ≡ some parent
    → parent.id ≡ id
unfolding node_by_id
node_by_id-id [] id parent h = absurd (ground (arith, h))
node_by_id-id (n ∷ nodes) id parent h = elim (or_later-some n id (node_by_id nodes id) parent h) [
  | inl e ↦ node_by_id-id nodes id parent e
  | inr (same, e) ↦ ap (λ (m : MenuNode). m.id) same ∙ e
]

-- A node that is found and was not visited counts no more once it is.
unvisited-lt :
    (nodes : List MenuNode) (id : ℕ) (parent : MenuNode) (visited : List ℕ)
    → node_by_id nodes id ≡ some parent
    → contains parent.id visited ≡ false
    → unvisited nodes (parent.id ∷ visited) < unvisited nodes visited
unfolding node_by_id filter contains
unvisited-lt [] id parent visited h new = absurd (ground (arith, h))
unvisited-lt (n ∷ nodes) id parent visited h new =
    elim (or_later-some n id (node_by_id nodes id) parent h) [
      | inl e ↦ ground (arith, unvisited-lt nodes id parent visited e new)
      | inr (same, e) ↦
          let own : n.id ≡ parent.id = ap (λ (m : MenuNode). m.id) (sym same) in
          ground (arith, own, new, unvisited-le nodes parent.id visited)
    ]

-- Each node is found by its id and is the parent of the next; the last is the candidate.
abbrev pub IsPathTo : List MenuNode → MenuNode → List MenuNode → Type 0
IsPathTo nodes candidate [] = ⊥
IsPathTo nodes candidate (node ∷ []) = node ≡ candidate
IsPathTo nodes candidate (parent ∷ (child ∷ rest)) =
    (node_by_id nodes parent.id ≡ some parent)
    × (child.parent_id ≡ some parent.id)
    × IsPathTo nodes candidate (child ∷ rest)

abbrev IsGood : List MenuNode → MenuNode → Walk → Type 0
IsGood nodes candidate (rooted lineage) =
    (root : MenuNode) × (rest : List MenuNode) × (lineage ≡ root ∷ rest)
    × (root.parent_id ≡ none)
    × IsPathTo nodes candidate (root ∷ rest)
IsGood nodes candidate broken = Unit
IsGood nodes candidate endless = ⊥

step_to-IsGood :
    (nodes : List MenuNode) (candidate : MenuNode) (next : List ℕ → List MenuNode → MenuNode → Walk)
    (steps : ℕ) (visited : List ℕ) (current : MenuNode) (rest : List MenuNode) (parent_id : ℕ)
    → ((visited' : List ℕ) (node : MenuNode) (rest' : List MenuNode)
        → unvisited nodes visited' < steps
        → IsPathTo nodes candidate (node ∷ rest')
        → IsGood nodes candidate (next visited' (node ∷ rest') node))
    → unvisited nodes visited < suc steps
    → IsPathTo nodes candidate (current ∷ rest)
    → current.parent_id ≡ some parent_id
    → (o : Option MenuNode) → node_by_id nodes parent_id ≡ o
    → IsGood nodes candidate (step_to next visited (current ∷ rest) o)
step_to-IsGood nodes candidate next steps visited current rest parent_id ih few path e none found =
    tt
step_to-IsGood nodes candidate next steps visited current rest parent_id ih few path e (some parent)
      found =
    let own : parent.id ≡ parent_id = node_by_id-id nodes parent_id parent found in
    elim (Bool-cases (contains parent.id visited)) [
      | inl seen ↦ rw seen tt
      | inr new ↦ rw new (
          ih (parent.id ∷ visited) parent (current ∷ rest)
            (omega (arith, unvisited-lt nodes parent_id parent visited found new))
            (ap (node_by_id nodes) own ∙ found, e ∙ ap some (sym own), path))
    ]

walk-IsGood :
    (nodes : List MenuNode) (candidate : MenuNode) (steps : ℕ) (visited : List ℕ)
    (current : MenuNode) (rest : List MenuNode)
    → unvisited nodes visited < steps
    → IsPathTo nodes candidate (current ∷ rest)
    → IsGood nodes candidate (walk nodes steps visited (current ∷ rest) current)
unfolding walk
walk-IsGood nodes candidate zero visited current rest few path = absurd (omega (arith, few))
walk-IsGood nodes candidate (suc steps) visited current rest few path =
    go current.parent_id refl (walk-IsGood nodes candidate steps)
  where
    go :
        (o : Option ℕ)
        → current.parent_id ≡ o
        → ((visited' : List ℕ) (node : MenuNode) (rest' : List MenuNode)
            → unvisited nodes visited' < steps
            → IsPathTo nodes candidate (node ∷ rest')
            → IsGood nodes candidate (walk nodes steps visited' (node ∷ rest') node))
        → IsGood nodes candidate (walk_from nodes (walk nodes steps) visited (current ∷ rest) o)
    go none e ih = (current, rest, refl, e, path)
    go (some parent_id) e ih =
        step_to-IsGood nodes candidate (walk nodes steps) steps visited current rest parent_id ih
          few path e (node_by_id nodes parent_id) refl

-- The chain of a path from a root at depth 0 down to the candidate, one level at a time.
pub record IsRootPath (nodes : List MenuNode) (candidate : MenuNode) (chain : List Text)
    : Type 0 where
  pub root : MenuNode
  pub rest : List MenuNode
  pub is_root : root.parent_id ≡ none
  pub at_top : root.depth ≡ pos 0
  pub levels : depth_continuous (root ∷ rest) ≡ true
  pub path : IsPathTo nodes candidate (root ∷ rest)
  pub chain_labels : chain ≡ labels (root ∷ rest)

abbrev pub IsDerived : List MenuNode → MenuNode → List Text × Bool → Type 0
IsDerived nodes candidate (chain, true) = IsRootPath nodes candidate chain
IsDerived nodes candidate (chain, false) = chain ≡ strip candidate.label ∷ []

chain_of_walk-IsDerived :
    (nodes : List MenuNode) (candidate : MenuNode) (w : Walk)
    → IsGood nodes candidate w
    → IsDerived nodes candidate (chain_of_walk candidate w)
chain_of_walk-IsDerived nodes candidate (rooted lineage) (root, rest, same, top, path) =
    rw same (elim (Bool-cases (root.depth == pos 0)) [
      | inr deep ↦ rw deep refl
      | inl top_level ↦ elim (Bool-cases (depth_continuous (root ∷ rest))) [
        | inr jump ↦ rw (top_level, jump) refl
        | inl levels ↦
            rw (top_level, levels)
              (record {
                root = root;
                rest = rest;
                is_root = top;
                at_top = (int_beq_iff root.depth (pos 0)).0 top_level;
                levels = levels;
                path = path;
                chain_labels = refl;
              })
      ]
    ])
chain_of_walk-IsDerived nodes candidate broken h = refl
chain_of_walk-IsDerived nodes candidate endless h = absurd h

-- For any menu nodes, whatever their parents, cycles included, the walk from a node to its root ends.
-- The chain is complete only if it is the path from a root at depth 0 down to the node, one level at a
-- time; otherwise it is the node's own label.
pub derive_chain_for_candidate-IsDerived :
    (nodes : List MenuNode) (candidate : MenuNode)
    → IsDerived nodes candidate (derive_chain_for_candidate nodes candidate)
unfolding derive_chain_for_candidate
derive_chain_for_candidate-IsDerived nodes candidate = chain_of_walk-IsDerived nodes candidate _ (
    walk-IsGood nodes candidate (length nodes + 1) (candidate.id ∷ []) candidate []
      (omega (arith, unvisited-le-length nodes (candidate.id ∷ []))) refl)
