-- ===== src/Currency.antt =====
-- goverify/workflow_currency.go: whether the actions of workflows stand at the latest stable tags.
pub mod Version
pub mod Annotation
pub mod Tags
pub mod Reference
