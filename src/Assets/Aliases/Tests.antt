-- ===== src/Assets/Aliases/Tests.antt =====
-- A menu of two levels, and two nodes that are each other's parents.
use runlet.Prelude.{ℕ, false, ◌≡◌, refl, true, Option, none, some, List, [], ◌∷◌, Text, text}
use runlet.Prelude.Values.{pos}
use runlet.Assets.Aliases.Chains.{MenuNode, derive_chain_for_candidate, derive_menu_chain}
use runlet.Assets.Aliases.Drafts.{build_navigation_aliases}
use runlet.Assets.Aliases.Walks.{IsDerived, derive_chain_for_candidate-IsDerived}

abbrev system : MenuNode
system = record {
  id = 1;
  parent_id = none;
  label = text " System ";
  route_path = none;
  depth = pos 0;
  sort_order = pos 0;
}

abbrev users : MenuNode
users = record {
  id = 2;
  parent_id = some 1;
  label = text "Users";
  route_path = some (text "/users");
  depth = pos 1;
  sort_order = pos 0;
}

abbrev looping : MenuNode
looping = record users { parent_id = some 3 }

abbrev looped : MenuNode
looped = record users { id = 3; parent_id = some 2 }

derive_chain_for_candidate-IsDerived_example :
    IsDerived
      (looping ∷ looped ∷ [])
      looping
      (derive_chain_for_candidate (looping ∷ looped ∷ []) looping)
derive_chain_for_candidate-IsDerived_example =
    derive_chain_for_candidate-IsDerived (looping ∷ looped ∷ []) looping

users_chain :
    derive_menu_chain (users ∷ system ∷ []) (text "/users")
    ≡ (text "System" ∷ text "Users" ∷ [], true)
unfolding derive_menu_chain runlet.Prelude.list_beq
users_chain = refl

looping_chain :
    derive_chain_for_candidate (looping ∷ looped ∷ []) looping ≡ (text "Users" ∷ [], false)
unfolding derive_chain_for_candidate
looping_chain = refl

users_aliases :
    build_navigation_aliases (some (text "User list")) (text "/users") (users ∷ system ∷ [])
    ≡ record {
      alias_type = text "page_title";
      alias_text = text "User list";
      leaf_text = some (text "Users");
      display_chain = some (text "System -> Users");
      chain_complete = true;
    }
      ∷ record {
        alias_type = text "menu_leaf";
        alias_text = text "Users";
        leaf_text = some (text "Users");
        display_chain = some (text "System -> Users");
        chain_complete = true;
      }
      ∷ record {
        alias_type = text "menu_chain";
        alias_text = text "System -> Users";
        leaf_text = some (text "Users");
        display_chain = some (text "System -> Users");
        chain_complete = true;
      }
      ∷ []
unfolding build_navigation_aliases runlet.Prelude.list_beq
users_aliases = refl
