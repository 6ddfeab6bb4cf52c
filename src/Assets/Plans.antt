-- ===== src/Assets/Plans.antt =====
-- Check templates, standard checks and module plans (asset_compiler/template_registry.py,
-- check_templates.py and module_plan_builder.py).
pub mod Templates
pub mod ModulePlan
pub mod Checks
pub mod Shape
pub mod Selected
pub mod Unique
pub mod Tests
