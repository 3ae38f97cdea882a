-- ===== src/Services/Observability/Masking.antt =====
-- services/observability/logging_filters.py: what the filter hides, and what it leaves.
use payroll_software.Base.{
  Bool, true, false, not, ◌&&◌, ◌≡◌, refl, ap, List, [], ◌∷◌, Option, none, some, ◌⊎◌, inl, inr,
  if◌then◌else◌, Bool-cases,
}
use payroll_software.Base.Text.{Text, text_eq, text_eq→eq, is_member}
use payroll_software.Services.Observability.{
  Args, by_name, positional, LogRecord, is_sensitive, is_masked, mask, mask_dict, mask_attributes,
  mask_args, filter, sensitive_keys, standard_fields,
}

-- `dict.get`
unfoldable pub get : {A : Type 0} → Text → List (Text × A) → Option A
get key [] = none
get key ((k, v) ∷ d) = if text_eq k key then some v else get key d

abbrev pub map_option : {A : Type 0} → (A → A) → Option A → Option A
map_option f none = none
map_option f (some a) = some (f a)

-- Two dicts with the same keys, and the same values except under the keys that `hidden` names.
abbrev pub Alike : {A : Type 0} → (Text → Bool) → List (Text × A) → List (Text × A) → Type 0
Alike hidden [] [] = Unit
Alike hidden ((k, v) ∷ d) ((l, w) ∷ e) = (k ≡ l) × ((hidden k ≡ true) ⊎ (v ≡ w)) × Alike hidden d e
Alike hidden [] (x ∷ e) = ⊥
Alike hidden (x ∷ d) [] = ⊥

abbrev pub AlikeArgs : {A : Type 0} → (Text → Bool) → Args A → Args A → Type 0
AlikeArgs hidden (by_name d) (by_name e) = Alike hidden d e
AlikeArgs hidden (positional l) (positional m) = l ≡ m
AlikeArgs hidden (by_name d) (positional m) = ⊥
AlikeArgs hidden (positional l) (by_name e) = ⊥

module _ {A : Type 0} (lower : Text → Text) (redacted : A) where
  mask_same :
      (b : Bool) (v w : A)
      → ((b ≡ true) ⊎ (v ≡ w))
      → mask lower redacted b v ≡ mask lower redacted b w
  mask_same true v w h = refl
  mask_same false v w (inl h) = cc
  mask_same false v w (inr h) = h

  mask_dict-Alike :
      (d e : List (Text × A))
      → Alike (is_sensitive lower redacted) d e
      → mask_dict lower redacted d ≡ mask_dict lower redacted e
  unfolding mask_dict
  mask_dict-Alike [] [] h = refl
  mask_dict-Alike [] (y ∷ e) h = absurd h
  mask_dict-Alike (x ∷ d) [] h = absurd h
  mask_dict-Alike ((k, v) ∷ d) ((l, w) ∷ e) (q, same, rest) =
      rw (← q, mask_same (is_sensitive lower redacted k) v w same, mask_dict-Alike d e rest)

  mask_attributes-Alike :
      (d e : List (Text × A))
      → Alike (is_masked lower redacted) d e
      → mask_attributes lower redacted d ≡ mask_attributes lower redacted e
  unfolding mask_attributes
  mask_attributes-Alike [] [] h = refl
  mask_attributes-Alike [] (y ∷ e) h = absurd h
  mask_attributes-Alike (x ∷ d) [] h = absurd h
  mask_attributes-Alike ((k, v) ∷ d) ((l, w) ∷ e) (q, same, rest) =
      rw (← q, mask_same (is_masked lower redacted k) v w same, mask_attributes-Alike d e rest)

  mask_args-Alike :
      (a b : Args A)
      → AlikeArgs (is_sensitive lower redacted) a b
      → mask_args lower redacted a ≡ mask_args lower redacted b
  unfolding mask_args
  mask_args-Alike (by_name d) (by_name e) h = ap by_name (mask_dict-Alike d e h)
  mask_args-Alike (by_name d) (positional m) h = absurd h
  mask_args-Alike (positional l) (by_name e) h = absurd h
  mask_args-Alike (positional l) (positional m) h = ap positional h

  -- Nothing of a sensitive value gets through: two records that differ in the values under
  -- sensitive keys alone, among the arguments by name and the attributes that are no standard
  -- field, are the same record after the filter.
  pub filter_hides :
      (r s : LogRecord A)
      → AlikeArgs (is_sensitive lower redacted) r.args s.args
      → Alike (is_masked lower redacted) r.attributes s.attributes
      → filter lower redacted r ≡ filter lower redacted s
  unfolding filter
  filter_hides r s a b =
      rw (mask_args-Alike r.args s.args a, mask_attributes-Alike r.attributes s.attributes b)

  -- A value as it reads after the filter, for a key that is to be hidden or not.
  abbrev pub hide : Bool → A → A
  hide hidden v = if hidden then redacted else v

  get-mask_dict :
      (key : Text) (d : List (Text × A))
      → get key (mask_dict lower redacted d)
        ≡ map_option (hide (is_member (lower key) sensitive_keys)) (get key d)
  unfolding get mask_dict is_sensitive
  get-mask_dict key [] = refl
  get-mask_dict key ((k, v) ∷ d) = elim (Bool-cases (text_eq k key)) [
    | inl e ↦ rw (e, text_eq→eq k key e)
    | inr e ↦ rw e (get-mask_dict key d)
  ]

  get-mask_attributes :
      (key : Text) (d : List (Text × A))
      → get key (mask_attributes lower redacted d)
        ≡ map_option
            (hide (not (is_member key standard_fields) && is_member (lower key) sensitive_keys))
            (get key d)
  unfolding get mask_attributes is_masked is_sensitive
  get-mask_attributes key [] = refl
  get-mask_attributes key ((k, v) ∷ d) = elim (Bool-cases (text_eq k key)) [
    | inl e ↦ rw (e, text_eq→eq k key e)
    | inr e ↦ rw e (get-mask_attributes key d)
  ]

  -- The arguments after the filter: those by position stay, and one by name reads as redacted if
  -- its key, in lower case, is sensitive, and as before otherwise.
  abbrev pub ArgsMasked : Text → Args A → Args A → Type 0
  ArgsMasked key (positional l) after = after ≡ positional l
  ArgsMasked key (by_name d) (positional m) = ⊥
  ArgsMasked key (by_name d) (by_name e) =
      get key e ≡ map_option (hide (is_member (lower key) sensitive_keys)) (get key d)

  mask_args-ArgsMasked : (key : Text) (a : Args A) → ArgsMasked key a (mask_args lower redacted a)
  unfolding mask_args
  mask_args-ArgsMasked key (positional l) = refl
  mask_args-ArgsMasked key (by_name d) = get-mask_dict key d

  -- The filter lets every record through. Arguments by position stay; an argument by name whose key
  -- in lower case is sensitive reads as redacted if it was given, and so does an attribute whose key
  -- is, unless it is a standard field. Any other argument and attribute reads as before.
  pub filter_masks :
      (key : Text) (r : LogRecord A)
      → let (passed, after) = filter lower redacted r in
        (passed ≡ true)
        × ArgsMasked key r.args after.args
        × (get key after.attributes
            ≡ map_option
                (hide (not (is_member key standard_fields) && is_member (lower key) sensitive_keys))
                (get key r.attributes))
  unfolding filter
  filter_masks key r = (refl, mask_args-ArgsMasked key r.args, get-mask_attributes key r.attributes)
