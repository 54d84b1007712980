-- ===== src/Tests/Sources.antt =====
-- Tests of cmd/secverify/identity.go.
use verify.Prelude.{List, [], refl, ◌++◌, ◌∷◌, false, length, ltb, none, some, ◌≡◌}
use verify.Text.{Bytes, codes, equal, cut_prefix}
use verify.Exit.Identity.{identity_text}
use verify.Identity.{Setting, add, source_identity}
use verify.Identity.Version.{
  Build, IsReleased, Module, Semver, cli_module, executable_version, executable_version-IsReleased,
  proctree_module, qualified_cli_version, qualified_proctree_version, qualified_yaml_version,
  verify_module, yaml_module,
}
use verify.Identity.Settings.{IsSource, source_identity-IsSource}

abbrev commit : Bytes
commit = codes "0123456789abcdef0123456789abcdef01234567"

abbrev settings : List Setting
settings =
    record { key = codes "vcs"; value = codes "git" }
    ∷ record { key = codes "GOOS"; value = codes "linux" }
    ∷ record { key = codes "vcs.revision"; value = commit }
    ∷ record { key = codes "vcs.modified"; value = codes "false" }
    ∷ []

source_identity-IsSource_example : IsSource settings (codes "commit:" ++ commit)
unfolding source_identity add equal
source_identity-IsSource_example = source_identity-IsSource settings refl

-- Every version with three bytes or more is released.
abbrev lenient : Semver
lenient = record {
  is_valid = λ version. ltb 2 (length version);
  canonical = λ version. version;
  is_pseudo_version = λ version. false;
}

abbrev at : Bytes → Bytes → Module
at path version = record { path = path; version = version; replaced = false }

abbrev build : Build
build = record {
  main = at verify_module (codes "v1.2.3");
  dependencies =
      some (at cli_module qualified_cli_version)
      ∷ none
      ∷ some (at proctree_module qualified_proctree_version)
      ∷ some (at yaml_module qualified_yaml_version)
      ∷ [];
}

executable_version-IsReleased_example : IsReleased lenient build
unfolding executable_version equal cut_prefix
executable_version-IsReleased_example = executable_version-IsReleased lenient build refl

-- The text of an identity.
identity_line :
    identity_text (record {
      version = codes "1.2.3";
      source = codes "dirty";
      go_version = codes "go1";
      platform = codes "linux";
    })
    ≡ codes "secverify 1.2.3 source=dirty go=go1 platform=linux\n"
unfolding identity_text equal
identity_line = refl
