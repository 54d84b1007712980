-- ===== src/Tests/Samples.antt =====
-- Concrete paths, nodes and references for the tests of workflows.
use verify.Prelude.{[], if◌then◌else◌, none, some, ℕ, ◌++◌, ◌==◌}
use verify.Text.{Bytes, codes, equal, has_prefix}
use verify.Workflow.Paths.{Filepath}
use verify.Workflow.Tree.{
  Node, NodeKind, Nodes, alias_node, child, document_node, mapping_node, no_nodes, node,
  scalar_node, sequence_node,
}
use verify.Workflow.Aliases.{Targets}

-- Paths with slashes, all of them clean.
abbrev pub posix : Filepath
posix = record {
  separator = b'/';
  is_abs = λ path. has_prefix path (codes "/");
  clean = λ path. path;
  from_slash = λ path. path;
  to_slash = λ path. path;
  join = λ root path. if equal root [] then path else root ++ codes "/" ++ path;
}

abbrev pub checkout : Bytes
checkout = codes "actions/checkout@0123456789abcdef0123456789abcdef01234567"

-- Nodes at an address and a line.
abbrev pub scalar : ℕ → ℕ → Bytes → Node
scalar id line value =
    node
      (record {
        id = id;
        kind = scalar_node;
        tag = codes "!!str";
        value = value;
        line = line;
        line_comment = [];
        alias = none;
      })
      no_nodes

abbrev pub inner : ℕ → NodeKind → Bytes → Nodes → Node
inner id kind tag content =
    node
      (record {
        id = id;
        kind = kind;
        tag = tag;
        value = [];
        line = 1;
        line_comment = [];
        alias = none;
      })
      content

abbrev pub alias_to : ℕ → ℕ → Node
alias_to id target =
    node
      (record {
        id = id;
        kind = alias_node;
        tag = [];
        value = [];
        line = 9;
        line_comment = [];
        alias = some target;
      })
      no_nodes

abbrev pub entry : ℕ → Bytes → Node → Nodes → Nodes
entry id key value rest = child (scalar id 1 key) (child value rest)

abbrev pub mapping : ℕ → Nodes → Node
mapping id content = inner id mapping_node (codes "!!map") content

-- A job that uses an action in a step.
abbrev pub job : Node
job = mapping 10 (
    entry 11 (codes "steps")
      (inner 12 sequence_node (codes "!!seq")
        (child (mapping 13 (entry 14 (codes "uses") (scalar 15 4 checkout) no_nodes)) no_nodes))
      no_nodes)

-- A workflow with two jobs, the second one an alias of the first.
abbrev pub document : Node
document = inner 1 document_node [] (
    child
      (mapping 2 (
        entry 3 (codes "jobs")
          (mapping 4
            (entry 5 (codes "test") job (entry 6 (codes "again") (alias_to 7 10) no_nodes)))
          no_nodes))
      no_nodes)

abbrev pub targets : Targets
targets id = if id == 10 then some job else none
