-- ===== src/Settings/Tags.antt =====
-- The variable that an error names is the one that env.Parse reads for the field.
use mathlib.Core.Path.{subst}
use listener_go.Prelude.{
  Text, eq_text, ◌≡◌, ◌≢◌, refl, ◌==◌, ◌⊎◌, inl, inr, none, some, List, [], ◌∷◌, ◌++◌, ap,
  Bool-cases, All, arith,
}
use listener_go.Settings.{
  Field, config_fields, field_by_name, before_comma, tag_or_name, env_tag_of_field, env_tag_of,
  ParseFailure, of_parse_error, to_config_error,
}

-- The key of a tag, which its options follow after a comma.
abbrev pub IsKeyOf : Text → Text → Type 0
IsKeyOf key tag = (tag ≡ key) ⊎ ((options : Text) × (tag ≡ key ++ (b',' ∷ options)))

before_comma-IsKeyOf : (tag : Text) → IsKeyOf (before_comma tag) tag
unfolding before_comma
before_comma-IsKeyOf [] = inl refl
before_comma-IsKeyOf (c ∷ tag) = elim (Bool-cases (c == b',')) [
  | inl comma ↦ inr (tag, rw comma (ground arith))
  | inr other ↦ rw other (elim (before_comma-IsKeyOf tag) [
    | inl whole ↦ inl (ap (λ (t : Text). c ∷ t) whole)
    | inr (options, e) ↦ inr (options, ap (λ (t : Text). c ∷ t) e)
  ])
]

abbrev Named : Field → Type 0
Named f = before_comma f.tag ≢ []

config_fields-Named : All Named config_fields
unfolding config_fields before_comma
config_fields-Named = ground arith

field_by_name-All :
    (P : Field → Type 0) (name : Text) (f : Field) (fs : List Field)
    → field_by_name name fs ≡ some f
    → All P fs
    → P f
unfolding field_by_name
field_by_name-All P name f [] h all = cc
field_by_name-All P name f (g ∷ fs) h all = elim (Bool-cases (eq_text g.name name)) [
  | inl here ↦ let same : g ≡ f = cc (rw here at h) in subst P (same) all.0
  | inr later ↦ field_by_name-All P name f fs (rw later at h) all.1
]

tag_or_name-tag : (name tag : Text) → tag ≢ [] → tag_or_name name tag ≡ tag
unfolding tag_or_name
tag_or_name-tag name [] h = absurd (h refl)
tag_or_name-tag name (c ∷ tag) h = refl

env_tag_of-IsKeyOf :
    (f : Field) (name : Text)
    → field_by_name name config_fields ≡ some f
    → IsKeyOf (env_tag_of name) f.tag
unfolding env_tag_of env_tag_of_field
env_tag_of-IsKeyOf f name found =
    let named = field_by_name-All Named name f config_fields found config_fields-Named in
    rw (found, tag_or_name-tag name (before_comma f.tag) named) (before_comma-IsKeyOf f.tag)

-- Where env.Parse fails at the value of a field of Config, and at no variable that is missing, the error
-- of Load has as its key the name in the tag of this field, without the options of the tag, and as
-- its text the message.
pub to_config_error-IsKeyOf :
    (e : ParseFailure) (f : Field) (name msg : Text)
    → e.not_set ≡ none
    → e.parse_error ≡ some (name, msg)
    → field_by_name name config_fields ≡ some f
    → IsKeyOf (to_config_error e).key f.tag × ((to_config_error e).msg ≡ msg)
unfolding to_config_error of_parse_error
to_config_error-IsKeyOf e f name msg set failed found =
    rw (set, failed) (env_tag_of-IsKeyOf f name found, refl)
