-- ===== src/Identity/Settings.antt =====
-- cmd/secverify/identity.go: an identity is told only by settings that stand there once each.
use verify.Prelude.{
  Bool, Bool-cases, List, [], false, if◌then◌else◌, inl, inr, some, subst, sym, true, ◌++◌, ◌∷◌,
  ◌≡◌, arith, refl, Option-cases, ap, append-nil, append_assoc, ◌&&◌, ◌||◌, ◌∙◌,
}
use verify.Text.{Bytes, codes, equal, equal_iff}
use verify.Identity.{
  Setting, SourceMetadata, add, git_object_id, metadata_from, no_metadata, source_identity,
}

-- The values of a key.
abbrev pub values : Bytes → List Setting → List Bytes
values key [] = []
values key (s ∷ settings) =
    if equal s.key key then s.value ∷ values key settings else values key settings

abbrev once : Bool → Bytes → List Bytes
once seen value = if seen then value ∷ [] else []

abbrev pub truth : Bool → Bytes
truth b = if b then codes "true" else codes "false"

-- What the metadata holds: the values that stood in settings.
record IsGathered (m m' : SourceMetadata) (settings : List Setting) : Type 0 where
  vcs : once m'.seen_vcs m'.vcs ≡ once m.seen_vcs m.vcs ++ values (codes "vcs") settings
  revision :
      once m'.seen_revision m'.revision
      ≡ once m.seen_revision m.revision ++ values (codes "vcs.revision") settings
  modified :
      once m'.seen_modified (truth m'.modified)
      ≡ once m.seen_modified (truth m.modified) ++ values (codes "vcs.modified") settings

distinct : (key a b : Bytes) → equal a b ≡ false → equal key a ≡ true → equal key b ≡ false
distinct key a b d h = subst (λ z. equal z b ≡ false) (sym ((equal_iff key a).0 h)) d

add-IsGathered :
    (m : SourceMetadata) (s : Setting) {m' : SourceMetadata}
    → add m s ≡ some m'
    → IsGathered m m' (s ∷ [])
unfolding add
add-IsGathered m s {m'} h = elim (Bool-cases (equal s.key (codes "vcs"))) [
  | inl a ↦
      let b = distinct s.key (codes "vcs") (codes "vcs.revision") (unfold equal in refl) a in
      let c = distinct s.key (codes "vcs") (codes "vcs.modified") (unfold equal in refl) a in
      record { vcs = ground arith; revision = ground arith; modified = ground arith }
  | inr a ↦ elim (Bool-cases (equal s.key (codes "vcs.revision"))) [
    | inl b ↦
        let c =
          distinct s.key (codes "vcs.revision") (codes "vcs.modified") (unfold equal in refl) b in
        record { vcs = ground arith; revision = ground arith; modified = ground arith }
    | inr b ↦ elim (Bool-cases (equal s.key (codes "vcs.modified"))) [
      | inl c ↦ record {
        vcs = ground arith;
        revision = ground arith;
        modified =
            ground (arith, equal_iff s.value (codes "true"), equal_iff s.value (codes "false"));
      }
      | inr c ↦ record { vcs = ground arith; revision = ground arith; modified = ground arith }
    ]
  ]
]

values-append :
    (key : Bytes) (s : Setting) (settings : List Setting)
    → values key (s ∷ []) ++ values key settings ≡ values key (s ∷ settings)
values-append key s settings = ground arith

gathered :
    (before middle last one rest both : List Bytes)
    → middle ≡ before ++ one
    → last ≡ middle ++ rest
    → one ++ rest ≡ both
    → last ≡ before ++ both
gathered before middle last one rest both a b c =
    b
    ∙ ap (λ (z : List Bytes). z ++ rest) a
    ∙ append_assoc before one rest
    ∙ ap (λ z. before ++ z) c

metadata_from-IsGathered :
    (m : SourceMetadata) (settings : List Setting) {m' : SourceMetadata}
    → metadata_from m settings ≡ some m'
    → IsGathered m m' settings
unfolding metadata_from
metadata_from-IsGathered m [] {m'} h =
    let same : m ≡ m' = ground arith in
    subst (λ z. IsGathered m z []) same
      (record {
        vcs = sym (append-nil _);
        revision = sym (append-nil _);
        modified = sym (append-nil _);
      })
metadata_from-IsGathered m (s ∷ settings) {m'} h = elim (Option-cases (add m s)) [
  | inl e ↦ absurd (ground arith)
  | inr (m1, e) ↦
      let g = add-IsGathered m s {m' = m1} e in
      let r = metadata_from-IsGathered m1 settings {m' = m'} (ground arith) in
      record {
        vcs = gathered _ _ _ _ _ _ g.vcs r.vcs (values-append (codes "vcs") s settings);
        revision =
            gathered _ _ _ _ _ _ g.revision r.revision
              (values-append (codes "vcs.revision") s settings);
        modified =
            gathered _ _ _ _ _ _ g.modified r.modified
              (values-append (codes "vcs.modified") s settings);
      }
]

-- What has not been seen is empty still.
abbrev empty_unseen : SourceMetadata → Bool
empty_unseen m = (m.seen_vcs || equal m.vcs []) && (m.seen_revision || equal m.revision [])

add-empty_unseen :
    (m : SourceMetadata) (s : Setting) {m' : SourceMetadata}
    → empty_unseen m ≡ true
    → add m s ≡ some m'
    → empty_unseen m' ≡ true
unfolding add
add-empty_unseen m s h e = ground arith

metadata_from-empty_unseen :
    (m : SourceMetadata) (settings : List Setting) {m' : SourceMetadata}
    → empty_unseen m ≡ true
    → metadata_from m settings ≡ some m'
    → empty_unseen m' ≡ true
unfolding metadata_from
metadata_from-empty_unseen m [] h e = ground arith
metadata_from-empty_unseen m (s ∷ settings) {m'} h e = elim (Option-cases (add m s)) [
  | inl k ↦ absurd (ground arith)
  | inr (m1, k) ↦
      metadata_from-empty_unseen m1 settings {m' = m'} (add-empty_unseen m s {m' = m1} h k)
        (ground arith)
]

seen-object :
    (seen : Bool) (v : Bytes) → (seen || equal v []) ≡ true → git_object_id v ≡ true → seen ≡ true
unfolding git_object_id equal
seen-object seen [] h k = absurd (ground arith)
seen-object seen (x ∷ xs) h k = ground arith

seen-git :
    (seen : Bool) (v : Bytes)
    → (seen || equal v []) ≡ true
    → equal v (codes "git") ≡ true
    → seen ≡ true
unfolding equal
seen-git seen [] h k = absurd (ground arith)
seen-git seen (x ∷ xs) h k = ground arith

found_once :
    (seen : Bool) (v : Bytes) (found : List Bytes)
    → once seen v ≡ [] ++ found
    → seen ≡ true
    → found ≡ v ∷ []
found_once seen v found h k = ground arith

-- A source that settings identify: version control, revision and state of the tree stand there once.
pub record IsSource (settings : List Setting) (text : Bytes) : Type 0 where
  pub revision : Bytes
  pub modified : Bool
  pub vcs : values (codes "vcs") settings ≡ codes "git" ∷ []
  pub revisions : values (codes "vcs.revision") settings ≡ revision ∷ []
  pub states : values (codes "vcs.modified") settings ≡ truth modified ∷ []
  pub object : git_object_id revision ≡ true
  pub named : text ≡ (if modified then codes "dirty:" else codes "commit:") ++ revision

-- `sourceIdentity` tells an identity only when `vcs`, `vcs.revision` and `vcs.modified` stand in the
-- settings once each, as git, a full object id and a truth value; it names that revision, and says
-- whether the tree was modified.
pub source_identity-IsSource :
    (settings : List Setting) {text : Bytes}
    → source_identity settings ≡ some text
    → IsSource settings text
unfolding source_identity
source_identity-IsSource settings {text} h =
    elim (Option-cases (metadata_from no_metadata settings)) [
      | inl e ↦ absurd (ground arith)
      | inr (m, e) ↦
          let g = metadata_from-IsGathered no_metadata settings {m' = m} e in
          let unseen =
            metadata_from-empty_unseen no_metadata settings {m' = m} (unfold equal in refl) e in
          let git : equal m.vcs (codes "git") ≡ true = ground arith in
          let object : git_object_id m.revision ≡ true = ground arith in
          let state : m.seen_modified ≡ true = ground arith in
          let has_vcs = seen-git m.seen_vcs m.vcs (ground arith) git in
          let has_revision = seen-object m.seen_revision m.revision (ground arith) object in
          record {
            revision = m.revision;
            modified = m.modified;
            vcs =
                found_once m.seen_vcs m.vcs (values (codes "vcs") settings) g.vcs has_vcs
                ∙ ap (λ v. v ∷ []) ((equal_iff m.vcs (codes "git")).0 git);
            revisions = found_once m.seen_revision m.revision _ g.revision has_revision;
            states = found_once m.seen_modified (truth m.modified) _ g.modified state;
            object = object;
            named = ground arith;
          }
    ]
