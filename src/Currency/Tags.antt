-- ===== src/Currency/Tags.antt =====
-- goverify/workflow_currency.go: the tags of a repository. The map of tags is the list of its entries,
-- in the order in which a loop meets them.
pub mod Rank
pub mod Latest
pub mod Parsed
use verify.Prelude.{
  Bool, List, Option, [], all, any, false, if◌then◌else◌, length, ltb, none, not, some, true, ◌&&◌,
  ◌==◌, ◌||◌, ◌∷◌,
}
use verify.Text.{Bytes, codes, cut_byte, cut_prefix, cut_suffix, equal, split_byte}
use verify.Workflow.References.{lower_hex, workflow_commit_bytes}
use verify.Errors.{Result, err, ok, workflow_currency, ◌>>=◌}
use verify.Currency.Version.{
  ActionVersion, compare_action_version, is_positive, is_zero, no_version, parse_action_version,
}

pub record ActionTag : Type 0 where
  pub name : Bytes
  pub version : ActionVersion
  pub commit : Bytes
  pub base : Bool
  pub peeled : Bool

-- The zero value of an `actionTag`.
abbrev pub no_tag : ActionTag
no_tag = record { name = []; version = no_version; commit = []; base = false; peeled = false }

abbrev pub Tags : Type 0
Tags = List (Bytes × ActionTag)

unfoldable pub lookup_tag : Bytes → Tags → Option ActionTag
lookup_tag name [] = none
lookup_tag name ((key, tag) ∷ tags) = if equal key name then some tag else lookup_tag name tags

unfoldable pub insert_tag : Bytes → ActionTag → Tags → Tags
insert_tag name tag [] = (name, tag) ∷ []
insert_tag name tag ((key, old) ∷ tags) =
    if equal key name then (name, tag) ∷ tags else (key, old) ∷ insert_tag name tag tags

-- `actionTagName`; `none` is "not found".
unfoldable pub action_tag_name : Bytes → Option (Bytes × Bool)
action_tag_name reference = elim (cut_prefix reference (codes "refs/tags/")) [
  | none ↦ none
  | some [] ↦ none
  | some (c ∷ cs) ↦ elim (cut_suffix (c ∷ cs) (codes "^{}")) [
    | none ↦ some (c ∷ cs, false)
    | some [] ↦ none
    | some (d ∷ ds) ↦ some (d ∷ ds, true)
  ]
]

-- The entry of a tag that a line names; a missing key reads as the zero value.
unfoldable pub tag_of : Bytes → Tags → ActionTag
unfolding lookup_tag
tag_of name tags = elim (lookup_tag name tags) [ none ↦ no_tag | some tag ↦ tag ]

-- `addActionTag` behind the version.
unfoldable pub record_tag : Tags → Bytes → Bytes → Bool → ActionVersion → Result Tags
unfolding tag_of
record_tag tags commit name peeled version =
    let tag = tag_of name tags in
    if peeled
    then (if tag.peeled
        then err (workflow_currency ∷ [])
        else ok (
            insert_tag name (record tag { peeled = true; commit = commit; version = version })
              tags))
    else if tag.base
    then err (workflow_currency ∷ [])
    else ok (
        insert_tag name
          (record tag {
            base = true;
            commit = if tag.peeled then tag.commit else commit;
            version = version;
          })
          tags)

-- `addActionTag` behind the test of the line.
pub add_named : Tags → Bytes → Option (Bytes × Bool) → Result Tags
unfolding record_tag
add_named tags commit none = ok tags
add_named tags commit (some (name, peeled)) = elim (parse_action_version name) [
  | none ↦ ok tags
  | some version ↦ record_tag tags commit name peeled version
]

-- `addActionTag`
unfoldable pub add_action_tag : Tags → Bytes → Result Tags
unfolding add_named lower_hex
add_action_tag tags line = elim (cut_byte line b'\t') [
  | none ↦ err (workflow_currency ∷ [])
  | some (commit, reference) ↦
      if not (length commit == workflow_commit_bytes)
        || any (λ c. c == b'\t') reference
        || not (lower_hex commit workflow_commit_bytes)
      then err (workflow_currency ∷ [])
      else add_named tags commit (action_tag_name reference)
]

-- The loop over the lines.
unfoldable pub add_lines : Tags → List Bytes → Result Tags
unfolding add_action_tag
add_lines tags [] = ok tags
add_lines tags ([] ∷ lines) = add_lines tags lines
add_lines tags ((c ∷ cs) ∷ lines) = add_action_tag tags (c ∷ cs) >>= λ tags'. add_lines tags' lines

-- `parseActionTags`
unfoldable pub parse_action_tags : Bytes → Result Tags
unfolding add_lines
parse_action_tags source = do
  tags ← add_lines [] (split_byte source b'\n')
  (if not (all (λ entry. ActionTag.base entry.1) tags) || length tags == 0
      then err (workflow_currency ∷ [])
      else ok tags)

-- Whether the version of a tag is the one to leave out.
unfoldable pub left_out : Option ActionVersion → ActionVersion → Bool
left_out none version = false
left_out (some excluded) version = is_zero (compare_action_version version excluded)

-- One turn of the loop of `selectLatestActionTag`.
unfoldable pub choose : Option ActionVersion → ActionTag → Bytes → ActionTag → ActionTag
unfolding left_out
choose excluded latest name tag =
    let comparison = compare_action_version tag.version latest.version in
    if left_out excluded tag.version
    then latest
    else if equal latest.name []
        || is_positive comparison
        || (is_zero comparison
            && ltb (length latest.version.components) (length tag.version.components))
    then record tag { name = name }
    else latest

-- The loop of `selectLatestActionTag`.
unfoldable pub select_from : Option ActionVersion → ActionTag → Tags → ActionTag
select_from excluded latest [] = latest
select_from excluded latest ((name, tag) ∷ tags) =
    select_from excluded (choose excluded latest name tag) tags

-- `selectLatestActionTag`
unfoldable pub select_latest_action_tag : Option ActionVersion → Tags → ActionTag
unfolding select_from
select_latest_action_tag excluded tags = select_from excluded no_tag tags
