-- ===== src/Workflow.antt =====
-- goverify/workflow.go: the references of workflows to what they execute.
pub mod Paths
pub mod References
pub mod Tree
pub mod Aliases
pub mod Inspect
pub mod Admission
use verify.Prelude.{ℕ, ◌*◌, ◌^◌}
use verify.Text.{Bytes}

-- `MaxWorkflowBytes`
abbrev pub max_workflow_bytes : ℕ
max_workflow_bytes = 64 * 2 ^ 10

-- `MaxWorkflowLineBytes`
abbrev pub max_workflow_line_bytes : ℕ
max_workflow_line_bytes = 4 * 2 ^ 10

-- `MaxWorkflowDepth`
abbrev pub max_workflow_depth : ℕ
max_workflow_depth = 100

-- `MaxWorkflowNodes`
abbrev pub max_workflow_nodes : ℕ
max_workflow_nodes = max_workflow_bytes

-- `MaxWorkflowReferences`
abbrev pub max_workflow_references : ℕ
max_workflow_references = 4 * 2 ^ 10

-- `WorkflowReferenceKind`
pub data WorkflowReferenceKind : Type 0 where
  workflow_action workflow_image : WorkflowReferenceKind

pub record WorkflowReference : Type 0 where
  pub kind : WorkflowReferenceKind
  pub value : Bytes
  pub version : Bytes
  pub excluded_version : Bytes
  pub exclusion_reason : Bytes
  pub path : Bytes
  pub line : ℕ
