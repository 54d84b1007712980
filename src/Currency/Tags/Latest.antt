-- ===== src/Currency/Tags/Latest.antt =====
-- goverify/workflow_currency.go: `selectLatestActionTag` finds the greatest tag, in whatever order it
-- meets the tags.
use verify.Prelude.{
  All, Bool-cases, Option, [], arith, false, if◌then◌else◌, inl, inr, refl, true, ◌||◌, ◌∷◌, ◌≡◌,
  ◌⊎◌,
}
use verify.Currency.Version.Order.{IsNumeric, compare_action_version-numbers}
use verify.Currency.Tags.{
  ActionTag, Tags, choose, left_out, no_tag, select_from, select_latest_action_tag,
}
use verify.Text.{Bytes, equal}
use verify.Currency.Version.{ActionVersion}
use verify.Currency.Tags.Rank.{In, IsNamed, outranks, outranks_asym, outranks_self, outranks_trans}

choose_lem :
    (excluded : Option ActionVersion) (latest : ActionTag) (name : Bytes) (tag : ActionTag)
    → IsNumeric latest.version
    → IsNumeric tag.version
    → choose excluded latest name tag ≡ (
        if left_out excluded tag.version
        then latest
        else if equal latest.name [] || outranks tag latest
        then record tag { name = name }
        else latest)
unfolding choose
choose_lem excluded latest name tag hl ht =
    let (positive, zero_at) = compare_action_version-numbers tag.version latest.version ht hl in
    rw (positive, zero_at) (ground arith)

-- What the loop has found from `latest` on.
record IsChosen (excluded : Option ActionVersion) (latest : ActionTag) (tags : Tags) (r : ActionTag)
    : Type 0 where
  found :
      (r ≡ latest)
      ⊎ ((name : Bytes) × (tag : ActionTag) × In (name, tag) tags
          × (left_out excluded tag.version ≡ false)
          × (r ≡ record tag { name = name }))
  greatest :
      All
        (λ e.
          (left_out excluded e.1.version ≡ true)
          ⊎ ((equal r.name [] ≡ false) × (outranks e.1 r ≡ false)))
        tags
  start : (equal latest.name [] ≡ true) ⊎ ((equal r.name [] ≡ false) × (outranks latest r ≡ false))

module _ (excluded : Option ActionVersion) (latest : ActionTag) (name : Bytes) (tag : ActionTag)
    (tags : Tags) (r : ActionTag) where
  -- What a loop has found among the tags behind the first.
  abbrev Behind : Tags → Type 0
  Behind ts =
      (n : Bytes) × (t : ActionTag) × In (n, t) ts
      × (left_out excluded t.version ≡ false)
      × (r ≡ record t { name = n })

  further : Behind tags → Behind ((name, tag) ∷ tags)
  further (n, t, i, o, e) = (n, t, inr i, o, e)

  left_out-IsChosen :
      left_out excluded tag.version ≡ true
      → IsChosen excluded latest tags r
      → IsChosen excluded latest ((name, tag) ∷ tags) r
  left_out-IsChosen out h = record {
    found = elim h.found [ inl e ↦ inl e | inr b ↦ inr (further b) ];
    greatest = (inl out, h.greatest);
    start = h.start;
  }

  taken-IsChosen :
      equal name [] ≡ false
      → left_out excluded tag.version ≡ false
      → (equal latest.name [] || outranks tag latest) ≡ true
      → IsChosen excluded (record tag { name = name }) tags r
      → IsChosen excluded latest ((name, tag) ∷ tags) r
  taken-IsChosen named eligible takes h = elim h.start [
    | inl empty ↦ absurd (ground arith)
    | inr (r_named, below) ↦ record {
      found = elim h.found [
        | inl e ↦ inr (name, tag, inl refl, eligible, e)
        | inr b ↦ inr (further b)
      ];
      greatest = (inr (r_named, below), h.greatest);
      start = elim (Bool-cases (equal latest.name [])) [
        | inl empty ↦ inl empty
        | inr old ↦
            let higher : outranks tag latest ≡ true = rw old at takes in
            inr (r_named, outranks_trans latest tag r (outranks_asym tag latest higher) below)
      ];
    }
  ]

  kept-IsChosen :
      left_out excluded tag.version ≡ false
      → (equal latest.name [] || outranks tag latest) ≡ false
      → IsChosen excluded latest tags r
      → IsChosen excluded latest ((name, tag) ∷ tags) r
  kept-IsChosen eligible keeps h = elim (Bool-cases (equal latest.name [])) [
    | inl empty ↦ absurd (ground arith)
    | inr old ↦ elim h.start [
      | inl empty ↦ absurd (ground arith)
      | inr (r_named, below) ↦
          let lower : outranks tag latest ≡ false = rw old at keeps in
          record {
            found = elim h.found [ inl e ↦ inl e | inr b ↦ inr (further b) ];
            greatest = (inr (r_named, outranks_trans tag latest r lower below), h.greatest);
            start = inr (r_named, below);
          }
    ]
  ]

select_from-IsChosen :
    (excluded : Option ActionVersion) (latest : ActionTag) (tags : Tags)
    → IsNumeric latest.version
    → All IsNamed tags
    → IsChosen excluded latest tags (select_from excluded latest tags)
unfolding select_from
select_from-IsChosen excluded latest [] n h = record {
  found = inl refl;
  greatest = tt;
  start = elim (Bool-cases (equal latest.name [])) [
    | inl empty ↦ inl empty
    | inr named ↦ inr (named, outranks_self latest)
  ];
}
select_from-IsChosen excluded latest ((name, tag) ∷ tags) n h =
    let named = record tag { name = name } in
    let stays = select_from-IsChosen excluded latest tags n h.1 in
    let moves = select_from-IsChosen excluded (record tag { name = name }) tags h.0.1 h.1 in
    let step = choose_lem excluded latest name tag n h.0.1 in
    elim (Bool-cases (left_out excluded tag.version)) [
      | inl out ↦ rw (step, out) (left_out-IsChosen excluded latest name tag tags _ out stays)
      | inr eligible ↦ elim (Bool-cases (equal latest.name [] || outranks tag latest)) [
        | inl takes ↦
            rw (step, eligible, takes)
              (taken-IsChosen excluded latest name tag tags _ h.0.0 eligible takes moves)
        | inr keeps ↦
            rw (step, eligible, keeps)
              (kept-IsChosen excluded latest name tag tags _ eligible keeps stays)
      ]
    ]

-- The latest of the tags that are not left out: an entry of the map, above which there is none; or no
-- tag, where all are left out.
pub record IsLatest (excluded : Option ActionVersion) (tags : Tags) (r : ActionTag) : Type 0 where
  pub found :
      (r ≡ no_tag)
      ⊎ ((name : Bytes) × (tag : ActionTag) × In (name, tag) tags
          × (left_out excluded tag.version ≡ false)
          × (r ≡ record tag { name = name }))
  pub greatest :
      All
        (λ e.
          (left_out excluded e.1.version ≡ true)
          ⊎ ((equal r.name [] ≡ false) × (outranks e.1 r ≡ false)))
        tags

-- `selectLatestActionTag` finds the latest tag: by the numbers of its components, and of equal ones
-- that with the most components; it finds none only if all are left out.
pub select_latest_action_tag-IsLatest :
    (excluded : Option ActionVersion) (tags : Tags)
    → All IsNamed tags
    → IsLatest excluded tags (select_latest_action_tag excluded tags)
unfolding select_latest_action_tag
select_latest_action_tag-IsLatest excluded tags h =
    let c = select_from-IsChosen excluded no_tag tags tt h in
    record { found = c.found; greatest = c.greatest }
