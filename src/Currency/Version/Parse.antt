-- ===== src/Currency/Version/Parse.antt =====
-- goverify/workflow_currency.go: a version is read as it is written.
use verify.Prelude.{
  All, List, [], length, some, true, ℕ, ◌++◌, ◌+◌, ◌∷◌, ◌≡◌, ◌≤◌, Bool-cases, Option-cases,
  append_assoc, arith, inl, inr, sym, ◌==◌, ◌∙◌, all, ap, append-nil, false, refl, subst, ◌↔◌,
}
use verify.Text.{Bytes}
use verify.Currency.Version.{
  action_version_components, valid_action_version_component, version_from, ActionVersion,
  parse_action_version,
}
use verify.Decimal.{is_digit}

-- Components, joined by dots.
unfoldable pub join : List Bytes → Bytes
join [] = []
join (part ∷ parts) = elim parts [ [] ↦ part | next ∷ rest ↦ part ++ b'.' ∷ join parts ]

join-cons :
    (part : Bytes) (parts : List Bytes)
    → 1 ≤ length parts
    → join (part ∷ parts) ≡ part ++ b'.' ∷ join parts
unfolding join
join-cons part [] h = absurd (omega arith)
join-cons part (next ∷ rest) h = refl

-- The components that can stand behind `read` others.
pub record IsComponents (read : ℕ) (parts : List Bytes) : Type 0 where
  pub valid : All (λ p. valid_action_version_component p ≡ true) parts
  pub most : read + length parts ≤ action_version_components
  pub some_parts : 1 ≤ length parts

version_from-join :
    (read : ℕ) (part cs : Bytes) {parts : List Bytes}
    → read ≤ action_version_components
    → version_from read part cs ≡ some parts
    → (part ++ cs ≡ join parts) × IsComponents read parts
unfolding version_from join
version_from-join read part [] {parts} r h =
    let good : valid_action_version_component part ≡ true = ground arith in
    let room : read + 1 ≤ 3 = ground arith in
    let same : part ∷ [] ≡ parts = ground arith in
    subst (λ z. (part ++ [] ≡ join z) × IsComponents read z) same
      (append-nil part, record { valid = (good, tt); most = room; some_parts = omega arith })
version_from-join read part (c ∷ cs) {parts} r h = elim (Bool-cases (c == b'.')) [
  | inr inside ↦
      let (e, is) = version_from-join read (part ++ c ∷ []) cs {parts = parts} r (rw inside at h) in
      (sym (append_assoc part (c ∷ []) cs) ∙ e, is)
  | inl dot ↦ elim (Option-cases (version_from (read + 1) [] cs)) [
    | inl bad ↦ absurd (ground arith)
    | inr (rest, e) ↦
        let good : valid_action_version_component part ≡ true = ground arith in
        let same : part ∷ rest ≡ parts = ground arith in
        let is_dot : c ≡ b'.' = ground arith in
        let room : read + 1 ≤ 3 = ground arith in
        let (joined, is) = version_from-join (read + 1) [] cs {parts = rest} room e in
        subst (λ z. (part ++ c ∷ cs ≡ join z) × IsComponents read z) same
          (
            rw (is_dot, joined) (sym (join-cons part rest is.some_parts)),
            record {
              valid = (good, is.valid);
              most = omega (arith, is.most);
              some_parts = omega arith;
            },
          )
  ]
]

version_from-digits :
    (read : ℕ) (part p cs : Bytes)
    → all is_digit p ≡ true
    → version_from read part (p ++ cs) ≡ version_from read (part ++ p) cs
unfolding version_from
version_from-digits read part [] cs h = ap (λ z. version_from read z cs) (sym (append-nil part))
version_from-digits read part (c ∷ p) cs h =
    let plain : (c == b'.') ≡ false = ground arith in
    rw plain (
      version_from-digits read (part ++ c ∷ []) p cs (ground arith)
      ∙ ap (λ z. version_from read z cs) (append_assoc part (c ∷ []) p))

version_from-component :
    (read : ℕ) (p cs : Bytes)
    → valid_action_version_component p ≡ true
    → version_from read [] (p ++ cs) ≡ version_from read p cs
unfolding valid_action_version_component
version_from-component read p cs h = version_from-digits read [] p cs (ground arith)

version_from-dot :
    (read : ℕ) (p cs : Bytes) {rest : List Bytes}
    → (read == 3) ≡ false
    → valid_action_version_component p ≡ true
    → version_from (read + 1) [] cs ≡ some rest
    → version_from read p (b'.' ∷ cs) ≡ some (p ∷ rest)
unfolding version_from
version_from-dot read p cs h k e = ground arith

join-version_from :
    (read : ℕ) (parts : List Bytes)
    → IsComponents read parts
    → version_from read [] (join parts) ≡ some parts
unfolding join
join-version_from read [] is = absurd (omega (arith, is.some_parts))
join-version_from read (p ∷ []) is =
    let room : (read == 3) ≡ false = ground (arith, is.most) in
    ap (version_from read []) (sym (append-nil p))
    ∙ version_from-component read p [] is.valid.0
    ∙ (unfold version_from in rw (room, is.valid.0))
join-version_from read (p ∷ next ∷ rest) is =
    let room : (read == 3) ≡ false = ground (arith, is.most) in
    version_from-component read p (b'.' ∷ join (next ∷ rest)) is.valid.0
    ∙ version_from-dot read p (join (next ∷ rest)) {rest = next ∷ rest} room is.valid.0 (
        join-version_from (read + 1) (next ∷ rest)
          (record { valid = is.valid.1; most = omega (arith, is.most); some_parts = omega arith }))

parse_action_version-join :
    (value : Bytes) {version : ActionVersion}
    → parse_action_version value ≡ some version
    → (value ≡ version.value)
      × (value ≡ b'v' ∷ join version.components)
      × IsComponents 0 version.components
unfolding parse_action_version
parse_action_version-join [] h = absurd (ground arith)
parse_action_version-join (c ∷ []) h = absurd (ground arith)
parse_action_version-join (c ∷ d ∷ cs) {version} h =
    elim (Option-cases (version_from 0 [] (d ∷ cs))) [
      | inl bad ↦ absurd (ground arith)
      | inr (parts, e) ↦
          let (joined, is) = version_from-join 0 [] (d ∷ cs) {parts = parts} (omega arith) e in
          let same : record { value = c ∷ d ∷ cs; components = parts } ≡ version = ground arith in
          let v : c ≡ b'v' = ground arith in
          subst
            (λ z.
              (c ∷ d ∷ cs ≡ ActionVersion.value z)
              × (c ∷ d ∷ cs ≡ b'v' ∷ join (ActionVersion.components z))
              × IsComponents 0 (ActionVersion.components z))
            same (refl, rw (v, joined), is)
    ]

join-parse_action_version :
    (value : Bytes) (parts : List Bytes)
    → value ≡ b'v' ∷ join parts
    → IsComponents 0 parts
    → parse_action_version value ≡ some (record { value = value; components = parts })
unfolding parse_action_version
join-parse_action_version [] parts e is = absurd (ground arith)
join-parse_action_version (c ∷ []) parts e is =
    let nothing : [] ≡ join parts = ground arith in
    let read = ap (version_from 0 []) nothing ∙ join-version_from 0 parts is in
    absurd (unfold version_from valid_action_version_component in ground arith)
join-parse_action_version (c ∷ d ∷ cs) parts e is =
    let v : (c == b'v') ≡ true = ground arith in
    let behind : d ∷ cs ≡ join parts = ground arith in
    rw (v, ap (version_from 0 []) behind ∙ join-version_from 0 parts is) refl

-- `parseActionVersion` reads exactly `v` with one to three components joined by dots, each a canonical
-- numeral; the version holds the value, and these components.
pub parse_action_version_iff :
    (value : Bytes) (version : ActionVersion)
    → (parse_action_version value ≡ some version) ↔ (
        (value ≡ version.value)
        × (value ≡ b'v' ∷ join version.components)
        × IsComponents 0 version.components)
parse_action_version_iff value version = (
  λ h. parse_action_version-join value {version = version} h,
  λ h.
      join-parse_action_version value version.components h.1 h.2
      ∙ ap (λ z. some (record { value = z; components = version.components })) h.0,
)
