-- ===== src/Currency/Tags/Parsed.antt =====
-- goverify/workflow_currency.go: the tags that `parseActionTags` returns have names, and versions that
-- have been read.
use verify.Prelude.{
  All, Bool, List, Option, Option-cases, [], all, arith, false, if_elim, if◌then◌else◌, inl, inr,
  length, none, not, refl, some, subst, true, ◌==◌, ◌||◌, ◌∷◌, ◌≡◌,
}
use verify.Errors.{>>=-eq-ok, err, if_false-ok, ok, ok-injective, workflow_currency}
use verify.Text.{Bytes, cut_byte, equal, split_byte}
use verify.Currency.Version.{ActionVersion, parse_action_version}
use verify.Currency.Version.Parse.{parse_action_version_iff}
use verify.Currency.Version.Order.{IsNumeric}
use verify.Currency.Tags.{
  ActionTag, Tags, action_tag_name, add_action_tag, add_lines, add_named, insert_tag,
  parse_action_tags, record_tag, tag_of,
}
use verify.Currency.Tags.Rank.{IsNamed}

insert_tag-IsNamed :
    (name : Bytes) (tag : ActionTag) (tags : Tags)
    → IsNamed (name, tag)
    → All IsNamed tags
    → All IsNamed (insert_tag name tag tags)
unfolding insert_tag
insert_tag-IsNamed name tag [] h k = (h, tt)
insert_tag-IsNamed name tag ((key, old) ∷ tags) h k =
    if_elim (All IsNamed) (equal key name) (λ e. (h, k.1))
      (λ e. (k.0, insert_tag-IsNamed name tag tags h k.1))

parse_action_version-IsNumeric :
    (name : Bytes) (version : ActionVersion)
    → parse_action_version name ≡ some version
    → IsNumeric version
parse_action_version-IsNumeric name version h =
    ((parse_action_version_iff name version).0 h).2.valid

version-nonempty :
    (name : Bytes) (version : ActionVersion)
    → parse_action_version name ≡ some version
    → equal name [] ≡ false
unfolding parse_action_version equal
version-nonempty [] version h = absurd (ground arith)
version-nonempty (c ∷ name) version h = refl

record_tag-IsNamed :
    (tags : Tags) (commit name : Bytes) (peeled : Bool) (version : ActionVersion) {after : Tags}
    → IsNumeric version
    → equal name [] ≡ false
    → All IsNamed tags
    → record_tag tags commit name peeled version ≡ ok after
    → All IsNamed after
unfolding record_tag
record_tag-IsNamed tags commit name true version {after} n v k e =
    let stored = if_false-ok (ActionTag.peeled (tag_of name tags)) (workflow_currency ∷ []) e in
    let same = ok-injective stored in
    subst (All IsNamed) same (insert_tag-IsNamed name _ tags (v, n) k)
record_tag-IsNamed tags commit name false version {after} n v k e =
    let stored = if_false-ok (ActionTag.base (tag_of name tags)) (workflow_currency ∷ []) e in
    let same = ok-injective stored in
    subst (All IsNamed) same (insert_tag-IsNamed name _ tags (v, n) k)

add_named-IsNamed :
    (tags : Tags) (commit : Bytes) (o : Option (Bytes × Bool)) {after : Tags}
    → All IsNamed tags
    → add_named tags commit o ≡ ok after
    → All IsNamed after
unfolding add_named
add_named-IsNamed tags commit none k e = subst (All IsNamed) (ok-injective e) k
add_named-IsNamed tags commit (some (name, peeled)) {after} k e =
    elim (Option-cases (parse_action_version name)) [
      | inl h ↦ let same : tags ≡ after = ground arith in subst (All IsNamed) same k
      | inr (version, h) ↦
          record_tag-IsNamed tags commit name peeled version {after = after}
            (parse_action_version-IsNumeric name version h) (version-nonempty name version h) k
            (ground arith)
    ]

add_action_tag-IsNamed :
    (tags : Tags) (line : Bytes) {after : Tags}
    → All IsNamed tags
    → add_action_tag tags line ≡ ok after
    → All IsNamed after
unfolding add_action_tag
add_action_tag-IsNamed tags line {after} k e = elim (Option-cases (cut_byte line b'\t')) [
  | inl h ↦ absurd (ground arith)
  | inr ((commit, reference), h) ↦
      add_named-IsNamed tags commit (action_tag_name reference) {after = after} k (ground arith)
]

add_lines-IsNamed :
    (tags : Tags) (lines : List Bytes) {after : Tags}
    → All IsNamed tags
    → add_lines tags lines ≡ ok after
    → All IsNamed after
unfolding add_lines
add_lines-IsNamed tags [] k e = subst (All IsNamed) (ok-injective e) k
add_lines-IsNamed tags ([] ∷ lines) k e = add_lines-IsNamed tags lines k e
add_lines-IsNamed tags ((c ∷ cs) ∷ lines) {after} k e =
    let (middle, first, behind) =
      >>=-eq-ok (add_action_tag tags (c ∷ cs)) (λ tags'. add_lines tags' lines) {last = after} e in
    add_lines-IsNamed middle lines (add_action_tag-IsNamed tags (c ∷ cs) k first) behind

pub parse_action_tags-IsNamed :
    (source : Bytes) {tags : Tags} → parse_action_tags source ≡ ok tags → All IsNamed tags
unfolding parse_action_tags
parse_action_tags-IsNamed source {tags} e =
    let (found, lines, kept) =
      >>=-eq-ok (add_lines [] (split_byte source b'\n'))
        (λ tags.
          if not (all (λ entry. ActionTag.base entry.1) tags) || length tags == 0
          then err (workflow_currency ∷ [])
          else ok tags)
        {last = tags} e in
    let same = ok-injective (if_false-ok _ _ kept) in
    subst (All IsNamed) same (add_lines-IsNamed [] (split_byte source b'\n') tt lines)
