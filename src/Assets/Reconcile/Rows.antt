-- ===== src/Assets/Reconcile/Rows.antt =====
-- The data of reconciliation.py. UUIDs are numbers, in the order of their fixed-width texts.
use runlet.Prelude.{
  ℕ, Bool, true, false, ◌&&◌, List, Text, ◌==◌, Eq, ◌↔◌, ◌≡◌, arith, list_eq, nat_eq, text_beq_iff,
  Dict, Value,
}

pub data Reason : Type 0 where
  missing_page missing_menu_chain missing_key_element : Reason

abbrev pub reason_beq : Reason → Reason → Bool
reason_beq missing_page missing_page = true
reason_beq missing_menu_chain missing_menu_chain = true
reason_beq missing_key_element missing_key_element = true
reason_beq _ _ = false

pub reason_beq_iff : (a b : Reason) → (reason_beq a b ≡ true) ↔ (a ≡ b)
reason_beq_iff a b = (λ h. ground arith, λ h. ground arith)

instance abbrev pub reason_eq : Eq Reason
reason_eq = record { equal = reason_beq; equal_iff = reason_beq_iff }

pub record RetirementDecision : Type 0 where
  pub page_asset_id : ℕ
  pub page_check_ids : List ℕ
  pub reason : Reason

pub record ActivePageTruth : Type 0 where
  pub page_asset_id : ℕ
  pub route_path : Text

pub record ActiveCheckTruth : Type 0 where
  pub page_check_id : ℕ
  pub page_asset_id : ℕ
  pub blocking_dependency_json : Value

-- {"kind", "role", "text"}; in a descriptor an absent key is the empty text, since compaction
-- drops exactly the keys with an empty text.
pub record ElementRow : Type 0 where
  pub kind : Text
  pub role : Text
  pub element_text : Text

abbrev pub row_beq : ElementRow → ElementRow → Bool
row_beq a b = a.kind == b.kind && (a.role == b.role && a.element_text == b.element_text)

pub row_beq_iff : (a b : ElementRow) → (row_beq a b ≡ true) ↔ (a ≡ b)
row_beq_iff a b = (
  λ h. ground (
    arith,
    text_beq_iff a.kind b.kind,
    text_beq_iff a.role b.role,
    text_beq_iff a.element_text b.element_text,
  ),
  λ h. ground (
    arith,
    text_beq_iff a.kind b.kind,
    text_beq_iff a.role b.role,
    text_beq_iff a.element_text b.element_text,
  ),
)

instance abbrev pub row_eq : Eq ElementRow
row_eq = record { equal = row_beq; equal_iff = row_beq_iff }

pub record SnapshotTruth : Type 0 where
  pub route_paths : List Text
  pub menu_chain_by_route : Dict Text (List Text)
  pub elements_by_route : Dict Text (List ElementRow)
