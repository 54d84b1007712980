-- ===== src/Local.antt =====
-- goverify/local_action.go: the walk from references to the actions of the repository itself.
pub mod Inspect
pub mod Walk
pub mod Sound
pub mod Bounds
pub mod Steps
pub mod Fuel
pub mod Verify
pub mod Filed
use verify.Prelude.{List, [], ℕ, ◌*◌, ◌-◌, ◌^◌, if◌then◌else◌, ◌∷◌}
use verify.Text.{Bytes, equal}

-- `MaxLocalActionBytes`
abbrev pub max_local_action_bytes : ℕ
max_local_action_bytes = 16 * 2 ^ 20

-- `MaxLocalActions`, which is `MaxRepositorySources`
abbrev pub max_local_actions : ℕ
max_local_actions = 256 - 2

-- What changes in a `localActionOwner`, and the state of the caller's context.
pub record Owner (World : Type 0) : Type 0 where
  pub world : World
  pub visited : List Bytes
  pub active : List Bytes
  pub actions : ℕ
  pub bytes : ℕ
  pub references : ℕ

-- `newLocalActionOwner`
abbrev pub new_local_action_owner : {World : Type 0} → World → Owner World
new_local_action_owner world = record {
  world = world;
  visited = [];
  active = [];
  actions = 0;
  bytes = 0;
  references = 0;
}

-- `delete`, from a map that holds the key at most once.
unfoldable pub remove : Bytes → List Bytes → List Bytes
remove key [] = []
remove key (k ∷ keys) = let rest = remove key keys in if equal k key then rest else k ∷ rest
