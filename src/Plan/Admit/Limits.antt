-- ===== src/Plan/Admit/Limits.antt =====
-- What the admission of a command, through the caches of validate.go, has checked.
use verify.Prelude.{
  Bool-cases, [], arith, false, inl, inr, some, true, ◌∷◌, ◌≡◌, ◌⊎◌, Option-cases, ap, refl, subst,
  ◌∙◌, length, ◌++◌, ◌≢◌, ◌≤◌,
}
use verify.Text.{Bytes, equal, equal_iff, codes, has_prefix}
use verify.Text.Utf8.{Unicode}
use verify.Errors.{ok, Result-cases, >>=-eq-ok, ok-injective}
use verify.Plan.{Command, max_argument_bytes, max_environment_bytes, max_path_bytes}
use verify.Plan.Strings.{IsBounded, bounded_strings, bounded_strings-ok}
use verify.Plan.Admit.{
  Cache, Caches, Platform, canonical_executable, escapes, executable_cached, lookup,
  valid_command_bounds, admitted_directory_cached, admit_command,
}

module _ (p : Platform) (u : Unicode) (root : Bytes) where
  open p use {from_slash, join, is_directory_in}

  -- A clean relative path that does not lead out of where it starts, nor stay there.
  pub record IsInside (native : Bytes) : Type 0 where
    pub relative : Platform.is_abs p native ≡ false
    pub cleaned : Platform.clean p native ≡ native
    pub moves : native ≢ codes "."
    pub stays :
        (native ≢ codes "..")
        × (has_prefix native (codes ".." ++ Platform.separator p ∷ []) ≡ false)
    pub short : length native ≤ max_path_bytes

  escapes-IsInside : (native : Bytes) → escapes p u native ≡ false → IsInside native
  unfolding escapes
  escapes-IsInside native h = record {
    relative = ground arith;
    cleaned = ground (arith, equal_iff native (Platform.clean p native));
    moves = λ e. ground (arith, equal_iff native (codes "."));
    stays = (λ e. ground (arith, equal_iff native (codes "..")), ground arith);
    short = ground arith;
  }

  -- The directory of a command: the root, or one inside it that is named by a clean relative path.
  abbrev pub IsDirectory : Bytes → Bytes → Type 0
  IsDirectory directory admitted =
      ((directory ≡ []) × (admitted ≡ root))
      ⊎ (IsInside (from_slash directory)
          × (is_directory_in root (from_slash directory) ≡ ok true)
          × (admitted ≡ join root (from_slash directory)))

  -- What the caches hold is what would be computed again.
  pub record IsCache (c : Caches) : Type 0 where
    pub at_executable :
        (k v : Bytes) → lookup k c.executables ≡ some v → canonical_executable p u k ≡ ok v
    pub at_directory : (k v : Bytes) → lookup k c.directories ≡ some v → IsDirectory k v

  -- An admitted command: all but its executable and its directory is a copy.
  pub record IsAdmittedCommand (c c' : Command) : Type 0 where
    pub bounds : valid_command_bounds p u c ≡ true
    pub executable : canonical_executable p u c.executable ≡ ok c'.executable
    pub directory : IsDirectory c.directory c'.directory
    pub copy : c' ≡ record c { executable = c'.executable; directory = c'.directory }
    pub arguments : IsBounded false max_argument_bytes 0 [] c.arguments c'.arguments
    pub environment : IsBounded true max_environment_bytes 0 [] c.environment c'.environment

  pub lookup-new :
      (k j v x : Bytes) (cache : Cache)
      → lookup j ((k, v) ∷ cache) ≡ some x
      → ((k ≡ j) × (v ≡ x)) ⊎ (lookup j cache ≡ some x)
  unfolding lookup
  lookup-new k j v x cache h = elim (Bool-cases (equal k j)) [
    | inl same ↦ inl ((equal_iff k j).0 same, ground arith)
    | inr differs ↦ inr (ground arith)
  ]

  -- A cache that holds what a relation allows.
  abbrev Holds : (Bytes → Bytes → Type 0) → Cache → Type 0
  Holds R cache = (j x : Bytes) → lookup j cache ≡ some x → R j x

  Holds-new :
      (R : Bytes → Bytes → Type 0) (k v : Bytes) (cache : Cache)
      → R k v
      → Holds R cache
      → Holds R ((k, v) ∷ cache)
  Holds-new R k v cache r h j x e = elim (lookup-new k j v x cache e) [
    | inl (a, b) ↦ subst (λ z. R z x) a (subst (λ z. R k z) b r)
    | inr old ↦ h j x old
  ]

  executable_cached-ok :
      (k : Bytes) (cache : Cache) {v : Bytes} {cache' : Cache}
      → Holds (λ j x. canonical_executable p u j ≡ ok x) cache
      → executable_cached p u k cache ≡ ok (v, cache')
      → (canonical_executable p u k ≡ ok v)
        × Holds (λ j x. canonical_executable p u j ≡ ok x) cache'
  unfolding executable_cached
  executable_cached-ok k cache {v} {cache'} inv h = elim (Option-cases (lookup k cache)) [
    | inr (found, e) ↦
        let a : found ≡ v = ground arith in
        let b : cache ≡ cache' = ground arith in (inv k found e ∙ ap ok a, subst (Holds _) b inv)
    | inl e ↦ elim (Result-cases (canonical_executable p u k)) [
      | inr (causes, r) ↦ absurd (ground arith)
      | inl (value, r) ↦
          let a : value ≡ v = ground arith in
          let b : ((k, value) ∷ cache) ≡ cache' = ground arith in
          (r ∙ ap ok a, subst (Holds _) b (Holds-new _ k value cache r inv))
    ]
  ]

  admitted_directory_cached-ok :
      (k : Bytes) (cache : Cache) {v : Bytes} {cache' : Cache}
      → Holds IsDirectory cache
      → admitted_directory_cached p u root k cache ≡ ok (v, cache')
      → IsDirectory k v × Holds IsDirectory cache'
  unfolding admitted_directory_cached
  admitted_directory_cached-ok k cache {v} {cache'} inv h = elim (Option-cases (lookup k cache)) [
    | inr (found, e) ↦
        let a : found ≡ v = ground arith in
        let b : cache ≡ cache' = ground arith in
        (subst (IsDirectory k) a (inv k found e), subst (Holds _) b inv)
    | inl e ↦ elim (Bool-cases (escapes p u (from_slash k))) [
      | inl bad ↦ absurd (ground arith)
      | inr inside ↦ elim (Result-cases (is_directory_in root (from_slash k))) [
        | inr (causes, r) ↦ absurd (ground arith)
        | inl (false, r) ↦ absurd (ground arith)
        | inl (true, r) ↦
            let a : join root (from_slash k) ≡ v = ground arith in
            let b : ((k, join root (from_slash k)) ∷ cache) ≡ cache' = ground arith in
            let here : IsDirectory k (join root (from_slash k)) =
              inr (escapes-IsInside (from_slash k) inside, r, refl) in
            (subst (IsDirectory k) a here, subst (Holds _) b (Holds-new _ k _ cache here inv))
      ]
    ]
  ]

  -- A command that is admitted is in bounds; its executable is the canonical path of a regular file,
  -- and its directory one inside the root; all else is copied. The caches stay sound.
  pub admit_command-ok :
      (c : Command) (caches : Caches) {c' : Command} {caches' : Caches}
      → IsCache caches
      → admit_command p u root c caches ≡ ok (c', caches')
      → IsAdmittedCommand c c' × IsCache caches'
  unfolding admit_command
  admit_command-ok c caches {c'} {caches'} inv h = elim (Bool-cases (valid_command_bounds p u c)) [
    | inr bad ↦ absurd (ground arith)
    | inl good ↦
        let ((e, es), h1, k1) =
          >>=-eq-ok (executable_cached p u c.executable caches.executables) _ (rw good at h) in
        let ((d, ds), h2, k2) =
          >>=-eq-ok (admitted_directory_cached p u root c.directory caches.directories) _ k1 in
        let (a, h3, k3) = >>=-eq-ok (bounded_strings c.arguments false) _ k2 in
        let (n, h4, k4) = >>=-eq-ok (bounded_strings c.environment true) _ k3 in
        let (at_e, hold_e) =
          executable_cached-ok c.executable caches.executables {v = e} {cache' = es}
            inv.at_executable h1 in
        let (at_d, hold_d) =
          admitted_directory_cached-ok c.directory caches.directories {v = d} {cache' = ds}
            inv.at_directory h2 in
        let ba = bounded_strings-ok c.arguments false {copy = a} h3 in
        let bn = bounded_strings-ok c.environment true {copy = n} h4 in
        subst (λ (z : Command × Caches). IsAdmittedCommand c z.0 × IsCache z.1) (ok-injective k4)
          (
            record {
              bounds = good;
              executable = at_e;
              directory = at_d;
              copy = rw (ba.copied, bn.copied) refl;
              arguments = ba;
              environment = bn;
            },
            record { at_executable = hold_e; at_directory = hold_d },
          )
  ]
