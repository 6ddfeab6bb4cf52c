-- ===== src/Assets/Aliases/Drafts.antt =====
-- build_navigation_aliases of navigation_aliases.py.
use runlet.Prelude.{
  Bool, true, ◌&&◌, not, Option, none, some, List, [], ◌∷◌, ◌++◌, Text, text, is_empty,
  if◌then◌else◌, nat_eq, list_eq, option_eq, pair_eq, bool_eq, contains,
}
use runlet.Prelude.Json.{join}
use runlet.Assets.Aliases.Chains.{MenuNode, derive_menu_chain}

pub record NavigationAliasDraft : Type 0 where
  pub alias_type : Text
  pub alias_text : Text
  pub leaf_text : Option Text
  pub display_chain : Option Text
  pub chain_complete : Bool

-- _format_chain
unfoldable pub format_chain : List Text → Option Text
unfolding join
format_chain [] = none
format_chain (label ∷ chain) = some (join (text " -> ") (label ∷ chain))

-- chain[-1], if there is one
unfoldable pub last_label : List Text → Option Text
last_label [] = none
last_label (label ∷ []) = some label
last_label (label ∷ (next ∷ chain)) = last_label (next ∷ chain)

abbrev pub DraftKey : Type 0
DraftKey = Text × (Text × (Option Text × (Option Text × Bool)))

abbrev pub draft_key : NavigationAliasDraft → DraftKey
draft_key d = (d.alias_type, (d.alias_text, (d.leaf_text, (d.display_chain, d.chain_complete))))

unfoldable pub dedupe_drafts : List DraftKey → List NavigationAliasDraft → List NavigationAliasDraft
unfolding contains
dedupe_drafts seen [] = []
dedupe_drafts seen (draft ∷ drafts) =
    let skipped = dedupe_drafts seen drafts in
    let kept = draft ∷ dedupe_drafts (draft_key draft ∷ seen) drafts in
    if contains (draft_key draft) seen then skipped else kept

abbrev pub new_draft : Text → Text → List Text → Bool → NavigationAliasDraft
new_draft alias_type alias_text chain complete = record {
  alias_type = alias_type;
  alias_text = alias_text;
  leaf_text = last_label chain;
  display_chain = format_chain chain;
  chain_complete = complete;
}

-- A page with no title, or with an empty one, has no alias of that type.
abbrev pub title_draft : Option Text → List Text → Bool → List NavigationAliasDraft
title_draft none chain complete = []
title_draft (some page_title) chain complete =
    if is_empty page_title then [] else new_draft (text "page_title") page_title chain complete ∷ []

abbrev pub leaf_draft : Option Text → List Text → Bool → List NavigationAliasDraft
leaf_draft none chain complete = []
leaf_draft (some leaf) chain complete = new_draft (text "menu_leaf") leaf chain complete ∷ []

-- An empty text is no alias either.
abbrev pub chain_draft : Option Text → List Text → Bool → List NavigationAliasDraft
chain_draft none chain complete = []
chain_draft (some chain_text) chain complete =
    if complete && not (is_empty chain_text)
    then new_draft (text "menu_chain") chain_text chain true ∷ []
    else []

abbrev pub drafts_of : Option Text → List Text × Bool → List NavigationAliasDraft
drafts_of page_title (chain, complete) = dedupe_drafts [] (
    title_draft page_title chain complete
    ++ (leaf_draft (last_label chain) chain complete
        ++ chain_draft (format_chain chain) chain complete))

unfoldable pub build_navigation_aliases :
    Option Text → Text → List MenuNode → List NavigationAliasDraft
unfolding derive_menu_chain dedupe_drafts format_chain last_label
build_navigation_aliases page_title route_path menu_topology =
    drafts_of page_title (derive_menu_chain menu_topology route_path)
