-- ===== src/Identity/Version.antt =====
-- cmd/secverify/identity.go: the version of a released executable. Package semver and the test for
-- pseudo-versions are parameters.
use verify.Prelude.{
  Bool, List, Option, [], all, arith, false, if◌then◌else◌, leb, length, none, not, some, true, ℕ,
  ◌&&◌, ◌-◌, ◌||◌, ◌↔◌, ◌∷◌, ◌≡◌,
}
use verify.Text.{Bytes, codes, cut_prefix, equal, equal_iff}

-- `debug.Module`, by whether it is replaced.
pub record Module : Type 0 where
  pub path : Bytes
  pub version : Bytes
  pub replaced : Bool

-- `debug.BuildInfo`; a dependency may be nil.
pub record Build : Type 0 where
  pub main : Module
  pub dependencies : List (Option Module)

pub record Semver : Type 0 where
  pub is_valid : Bytes → Bool
  pub canonical : Bytes → Bytes
  pub is_pseudo_version : Bytes → Bool

abbrev pub verify_module : Bytes
verify_module = codes "github.com/secengcommons/verify"

abbrev pub cli_module : Bytes
cli_module = codes "github.com/secengcommons/cli"

abbrev pub qualified_cli_version : Bytes
qualified_cli_version = codes "v1.1.1"

abbrev pub proctree_module : Bytes
proctree_module = codes "github.com/secengcommons/proctree"

abbrev pub qualified_proctree_version : Bytes
qualified_proctree_version = codes "v1.1.1"

abbrev pub yaml_module : Bytes
yaml_module = codes "go.yaml.in/yaml/v3"

abbrev pub qualified_yaml_version : Bytes
qualified_yaml_version = codes "v3.0.5"

-- 128 bytes of an identity, less `module:`, `@`, and a module sum of 47 bytes.
abbrev pub max_module_version_bytes : ℕ
max_module_version_bytes = 128 - 7 - 1 - 47

-- The loop of `releasedDependency`.
unfoldable pub released_from : Bool → Bytes → Bytes → List (Option Module) → Bool
released_from found path version [] = found
released_from found path version (none ∷ ds) = released_from found path version ds
released_from found path version (some d ∷ ds) =
    let past = released_from found path version ds in
    let here = released_from true path version ds in
    if not (equal d.path path)
    then past
    else if found || not (equal d.version version)
    then false
    else here

-- `releasedDependency`
unfoldable pub released_dependency : Build → Bytes → Bytes → Bool
unfolding released_from
released_dependency build path version = released_from false path version build.dependencies

-- `unreplacedBuild`
unfoldable pub unreplaced_build : Build → Bool
unreplaced_build build =
    not build.main.replaced
    && all (λ o. elim o [ none ↦ true | some d ↦ not (Module.replaced d) ]) build.dependencies

module _ (v : Semver) where
  -- `releasedVersion`
  unfoldable pub released_version : Bytes → Bool
  released_version version =
      leb (length version) max_module_version_bytes
      && not (equal version (codes "v0.0.0"))
      && v.is_valid version
      && equal (v.canonical version) version
      && not (v.is_pseudo_version version)

  -- `executableVersion`, of a build that is there; `none` stands for the development version.
  unfoldable pub executable_version : Build → Option Bytes
  unfolding released_version unreplaced_build released_dependency
  executable_version build =
      if not (equal build.main.path verify_module)
        || not (released_version build.main.version)
        || not (unreplaced_build build)
        || not (released_dependency build cli_module qualified_cli_version)
        || not (released_dependency build proctree_module qualified_proctree_version)
        || not (released_dependency build yaml_module qualified_yaml_version)
      then none
      else elim (cut_prefix build.main.version (codes "v")) [
        | none ↦ some build.main.version
        | some rest ↦ some rest
      ]

-- The versions of the dependencies with a path.
abbrev pub versions : Bytes → List (Option Module) → List Bytes
versions path [] = []
versions path (none ∷ ds) = versions path ds
versions path (some d ∷ ds) =
    if equal d.path path then d.version ∷ versions path ds else versions path ds

released_from_lem :
    (path version : Bytes) (ds : List (Option Module))
    → ((released_from false path version ds ≡ true) ↔ (versions path ds ≡ version ∷ []))
      × ((released_from true path version ds ≡ true) ↔ (versions path ds ≡ []))
unfolding released_from
released_from_lem path version [] = ground arith
released_from_lem path version (none ∷ ds) = released_from_lem path version ds
released_from_lem path version (some d ∷ ds) =
    ground (arith, released_from_lem path version ds, equal_iff d.version version)

-- `releasedDependency` holds exactly when one dependency has the path, and it has the version.
pub released_dependency_iff :
    (build : Build) (path version : Bytes)
    → (released_dependency build path version ≡ true)
      ↔ (versions path build.dependencies ≡ version ∷ [])
unfolding released_dependency
released_dependency_iff build path version = (released_from_lem path version build.dependencies).0

-- A build that is given the version of a release.
pub record IsReleased (v : Semver) (build : Build) : Type 0 where
  pub own : build.main.path ≡ verify_module
  pub released : released_version v build.main.version ≡ true
  pub unreplaced : unreplaced_build build ≡ true
  pub cli : versions cli_module build.dependencies ≡ qualified_cli_version ∷ []
  pub proctree : versions proctree_module build.dependencies ≡ qualified_proctree_version ∷ []
  pub yaml : versions yaml_module build.dependencies ≡ qualified_yaml_version ∷ []

-- `executableVersion` gives the version of a release only to a build of the module itself, at a
-- released version, with no module replaced, and with each qualified dependency exactly once, at its
-- qualified version.
pub executable_version-IsReleased :
    (v : Semver) (build : Build) {text : Bytes}
    → executable_version v build ≡ some text
    → IsReleased v build
unfolding executable_version
executable_version-IsReleased v build h = record {
  own = (equal_iff build.main.path verify_module).0 (ground arith);
  released = ground arith;
  unreplaced = ground arith;
  cli = (released_dependency_iff build cli_module qualified_cli_version).0 (ground arith);
  proctree =
      (released_dependency_iff build proctree_module qualified_proctree_version).0 (ground arith);
  yaml = (released_dependency_iff build yaml_module qualified_yaml_version).0 (ground arith);
}
