-- ===== src/Assets/Aliases/Chains.antt =====
-- _derive_menu_chain of navigation_aliases.py and the functions that it calls. The dict of the nodes is
-- the list of them, read from its end, so that of two nodes with one id the last counts.
use runlet.Prelude.{
  ℕ, zero, suc, ◌+◌, Bool, true, false, ◌&&◌, ◌||◌, not, Option, none, some, List, [], ◌∷◌, map,
  Text, strip, is_empty, if◌then◌else◌, ltb, ◌==◌, nat_eq, list_eq, pair_eq, bool_eq, option_eq,
  filter, any, contains, dedupe, length, sort, text_leb, ℤ,
}
use runlet.Prelude.Values.{pos, negsuc}
use runlet.Prelude.Orders.{lex, int_leb, int_eq}
use runlet.Scheduling.Jobs.Publish.{uuid_text}

-- The columns of MenuNode that are read here.
pub record MenuNode : Type 0 where
  pub id : ℕ
  pub parent_id : Option ℕ
  pub label : Text
  pub route_path : Option Text
  pub depth : ℤ
  pub sort_order : ℤ

abbrev pub successor : ℤ → ℤ
successor (pos n) = pos (n + 1)
successor (negsuc zero) = pos 0
successor (negsuc (suc n)) = negsuc n

unfoldable pub route_matches : Option Text → Text → Bool
route_matches none target_route_path = false
route_matches (some node_route_path) target_route_path =
    not (is_empty node_route_path) && node_route_path == target_route_path

abbrev pub or_later : MenuNode → ℕ → Option MenuNode → Option MenuNode
or_later node id (some later) = some later
or_later node id none = if node.id == id then some node else none

-- node_by_id.get(id)
unfoldable pub node_by_id : List MenuNode → ℕ → Option MenuNode
node_by_id [] id = none
node_by_id (node ∷ nodes) id = or_later node id (node_by_id nodes id)

-- The walk to the root: the lineage, or a parent that is missing or was visited; `endless` stands for
-- a walk that has not ended after the given number of steps.
pub data Walk : Type 0 where
  rooted : List MenuNode → Walk
  broken : Walk
  endless : Walk

-- What a step does with the parent that it found.
abbrev pub step_to :
    (List ℕ → List MenuNode → MenuNode → Walk) → List ℕ → List MenuNode → Option MenuNode → Walk
step_to next visited lineage none = broken
step_to next visited lineage (some parent) =
    if contains parent.id visited
    then broken
    else next (parent.id ∷ visited) (parent ∷ lineage) parent

abbrev pub walk_from :
    List MenuNode
    → (List ℕ → List MenuNode → MenuNode → Walk)
    → List ℕ
    → List MenuNode
    → Option ℕ
    → Walk
walk_from nodes next visited lineage none = rooted lineage
walk_from nodes next visited lineage (some parent_id) =
    step_to next visited lineage (node_by_id nodes parent_id)

unfoldable pub walk : List MenuNode → ℕ → List ℕ → List MenuNode → MenuNode → Walk
unfolding node_by_id contains
walk nodes zero visited lineage current = endless
walk nodes (suc steps) visited lineage current =
    walk_from nodes (walk nodes steps) visited lineage current.parent_id

-- all(child.depth == parent.depth + 1 for parent, child in zip(lineage, lineage[1:]))
unfoldable pub depth_continuous : List MenuNode → Bool
depth_continuous [] = true
depth_continuous (parent ∷ []) = true
depth_continuous (parent ∷ (child ∷ rest)) =
    child.depth == successor parent.depth && depth_continuous (child ∷ rest)

-- lineage[0].depth == 0; a lineage is not empty.
abbrev pub starts_from_root : List MenuNode → Bool
starts_from_root [] = false
starts_from_root (root ∷ rest) = root.depth == pos 0

-- _derive_chain_from_depth_fallback, and the label alone.
abbrev pub label_only : MenuNode → List Text × Bool
label_only candidate = (strip candidate.label ∷ [], false)

abbrev pub labels : List MenuNode → List Text
labels nodes = map (λ (node : MenuNode). strip node.label) nodes

abbrev pub chain_of_walk : MenuNode → Walk → List Text × Bool
chain_of_walk candidate (rooted lineage) =
    if not (starts_from_root lineage) || not (depth_continuous lineage)
    then label_only candidate
    else (labels lineage, true)
chain_of_walk candidate broken = label_only candidate
chain_of_walk candidate endless = ([], false)

-- As many steps as there are nodes, and one for the root, are enough.
unfoldable pub derive_chain_for_candidate : List MenuNode → MenuNode → List Text × Bool
unfolding walk depth_continuous strip
derive_chain_for_candidate nodes candidate =
    chain_of_walk candidate
      (walk nodes (length nodes + 1) (candidate.id ∷ []) (candidate ∷ []) candidate)

-- {(tuple(chain), complete)} of the candidates, and with the label of each.
abbrev pub route_signatures : List MenuNode → List MenuNode → List (List Text × Bool)
route_signatures nodes candidates = dedupe (
    filter (λ (s : List Text × Bool). not (is_empty s.0))
      (map (derive_chain_for_candidate nodes) candidates))

abbrev pub leaf_signatures : List MenuNode → List MenuNode → List (Text × (List Text × Bool))
leaf_signatures nodes candidates = dedupe (
    filter (λ (s : Text × (List Text × Bool)). not (is_empty s.1.0))
      (map (λ (node : MenuNode). (strip node.label, derive_chain_for_candidate nodes node))
        candidates))

abbrev pub is_child_of : ℕ → MenuNode → Bool
is_child_of id node = node.parent_id == some id

abbrev pub leaves : List MenuNode → List MenuNode
leaves nodes = filter (λ (node : MenuNode). not (any (is_child_of node.id) nodes)) nodes

abbrev pub if_empty {ℓ} : {A : Type ℓ} → List A → List A → List A
if_empty [] other = other
if_empty (x ∷ xs) other = x ∷ xs

abbrev pub candidate_key : Text → MenuNode → Bool × (ℤ × (ℤ × (Text × Text)))
candidate_key route_path node = (
  not (route_matches node.route_path route_path),
  (node.depth, (node.sort_order, (strip node.label, uuid_text node.id))),
)

-- False is before True, and a greater depth before a smaller one.
abbrev pub candidate_leb : Text → MenuNode → MenuNode → Bool
candidate_leb route_path a b =
    lex (λ x y. not x || y) (lex (λ x y. int_leb y x) (lex int_leb (lex text_leb text_leb)))
      (candidate_key route_path a) (candidate_key route_path b)

-- The first chain that is not empty.
unfoldable pub first_chain : List (List Text × Bool) → List Text × Bool
first_chain [] = ([], false)
first_chain ((chain, complete) ∷ rest) =
    let later = first_chain rest in if is_empty chain then later else (chain, complete)

abbrev pub ordered_chain : List MenuNode → Text → List MenuNode → List Text × Bool
ordered_chain nodes route_path pool =
    first_chain (map (derive_chain_for_candidate nodes) (sort (candidate_leb route_path) pool))

-- The nodes that match the route, else the leaves; with more than one signature there is no chain.
abbrev pub chain_of_pool : List MenuNode → Text → List MenuNode → List MenuNode → List Text × Bool
chain_of_pool nodes route_path [] leaf_candidates =
    if ltb 1 (length (leaf_signatures nodes leaf_candidates))
    then ([], false)
    else ordered_chain nodes route_path leaf_candidates
chain_of_pool nodes route_path (node ∷ matching) leaf_candidates =
    if ltb 1 (length (route_signatures nodes (node ∷ matching)))
    then ([], false)
    else ordered_chain nodes route_path (node ∷ matching)

abbrev pub labeled : List MenuNode → List MenuNode
labeled menus = filter (λ (node : MenuNode). not (is_empty (strip node.label))) menus

abbrev pub chain_of_labeled : Text → List MenuNode → List Text × Bool
chain_of_labeled route_path nodes =
    chain_of_pool nodes route_path
      (filter (λ (node : MenuNode). route_matches node.route_path route_path) nodes)
      (if_empty (leaves nodes) nodes)

unfoldable pub derive_menu_chain : List MenuNode → Text → List Text × Bool
unfolding derive_chain_for_candidate first_chain route_matches strip filter any dedupe sort
    uuid_text
derive_menu_chain menus route_path = chain_of_labeled route_path (labeled menus)
