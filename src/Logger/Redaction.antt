-- ===== src/Logger/Redaction.antt =====
-- What the sensitive fields of the metadata do to the lines that are written.
use mern_chat_app.Common.{
  Text, codes, ◌≡◌, refl, true, false, if◌then◌else◌, ap, Bool-cases, inl, ◌∙◌, sym, inr,
}
use mern_chat_app.Logger.{
  LogValue, LogItems, LogFields, LogSettings, LogLevel, text, scalar, failure_of, array, object,
  nil, cons, end, field, is_sensitive, sanitize_value, sanitize_items, sanitize_fields, write,
  redacted,
}

-- The same metadata with `x` in the place of each value that stands under a sensitive key.
unfoldable mutual
  pub replace : LogValue → Text → LogValue → LogValue
  replace x key (text s) = if is_sensitive key then x else text s
  replace x key (scalar s) = if is_sensitive key then x else scalar s
  replace x key (failure_of name message stack) =
      if is_sensitive key then x else failure_of name message stack
  replace x key (array items) =
      let rest = replace_items x key items in if is_sensitive key then x else array rest
  replace x key (object fields) =
      let rest = replace_fields x fields in if is_sensitive key then x else object rest

  pub replace_items : LogValue → Text → LogItems → LogItems
  replace_items x key nil = nil
  replace_items x key (cons v items) = cons (replace x key v) (replace_items x key items)

  pub replace_fields : LogValue → LogFields → LogFields
  replace_fields x end = end
  replace_fields x (field key v fields) = field key (replace x key v) (replace_fields x fields)

module _ (clean : Text → Text) (x : LogValue) where
  redacted_lem :
      (key : Text) (v : LogValue) → is_sensitive key ≡ true → sanitize_value clean key v ≡ redacted
  unfolding sanitize_value
  redacted_lem key (text s) h = rw h refl
  redacted_lem key (scalar s) h = rw h refl
  redacted_lem key (failure_of name message stack) h = rw h refl
  redacted_lem key (array items) h = rw h refl
  redacted_lem key (object fields) h = rw h refl

  -- Under a key that is not sensitive, an array and an object are gone through.
  array_lem :
      (key : Text) (items : LogItems)
      → is_sensitive key ≡ false
      → (sanitize_value clean key (array items) ≡ array (sanitize_items clean key items))
        × (replace x key (array items) ≡ array (replace_items x key items))
  unfolding sanitize_value replace
  array_lem key items h = (rw h refl, rw h refl)

  object_lem :
      (key : Text) (fields : LogFields)
      → is_sensitive key ≡ false
      → (sanitize_value clean key (object fields) ≡ object (sanitize_fields clean fields))
        × (replace x key (object fields) ≡ object (replace_fields x fields))
  unfolding sanitize_value replace
  object_lem key fields h = (rw h refl, rw h refl)

  atom_lem :
      (key : Text) (v : LogValue)
      → replace x key v ≡ (if is_sensitive key then x else v)
      → sanitize_value clean key (replace x key v) ≡ sanitize_value clean key v
  atom_lem key v e = elim (Bool-cases (is_sensitive key)) [
    | inl h ↦ redacted_lem key (replace x key v) h ∙ sym (redacted_lem key v h)
    | inr h ↦ ap (sanitize_value clean key) (e ∙ rw h refl)
  ]

mutual
  unfolding sanitize_value replace

  value_same :
      (clean : Text → Text) (x : LogValue) (key : Text) (v : LogValue)
      → sanitize_value clean key (replace x key v) ≡ sanitize_value clean key v
  value_same clean x key (text s) = atom_lem clean x key (text s) refl
  value_same clean x key (scalar s) = atom_lem clean x key (scalar s) refl
  value_same clean x key (failure_of name message stack) =
      atom_lem clean x key (failure_of name message stack) refl
  value_same clean x key (array items) =
      let ih = items_same clean x key items in
      elim (Bool-cases (is_sensitive key)) [
        | inl h ↦
            redacted_lem clean x key (replace x key (array items)) h
            ∙ sym (redacted_lem clean x key (array items) h)
        | inr h ↦
            ap (sanitize_value clean key) (array_lem clean x key items h).1
            ∙ (array_lem clean x key (replace_items x key items) h).0
            ∙ ap (λ r. array r) ih
            ∙ sym (array_lem clean x key items h).0
      ]
  value_same clean x key (object fields) =
      let ih = fields_same clean x fields in
      elim (Bool-cases (is_sensitive key)) [
        | inl h ↦
            redacted_lem clean x key (replace x key (object fields)) h
            ∙ sym (redacted_lem clean x key (object fields) h)
        | inr h ↦
            ap (sanitize_value clean key) (object_lem clean x key fields h).1
            ∙ (object_lem clean x key (replace_fields x fields) h).0
            ∙ ap (λ r. object r) ih
            ∙ sym (object_lem clean x key fields h).0
      ]

  items_same :
      (clean : Text → Text) (x : LogValue) (key : Text) (items : LogItems)
      → sanitize_items clean key (replace_items x key items) ≡ sanitize_items clean key items
  items_same clean x key nil = refl
  items_same clean x key (cons v items) =
      ap (λ y. cons y (sanitize_items clean key (replace_items x key items)))
        (value_same clean x key v)
      ∙ ap (λ r. cons (sanitize_value clean key v) r) (items_same clean x key items)

  fields_same :
      (clean : Text → Text) (x : LogValue) (fields : LogFields)
      → sanitize_fields clean (replace_fields x fields) ≡ sanitize_fields clean fields
  fields_same clean x end = refl
  fields_same clean x (field key v fields) =
      ap (λ y. field key y (sanitize_fields clean (replace_fields x fields)))
        (value_same clean x key v)
      ∙ ap (λ r. field key (sanitize_value clean key v) r) (fields_same clean x fields)

-- Whatever stands under a sensitive key, at any depth of the metadata, has no influence on what is
-- written: with any one value in the place of all these, every call of the logger writes the same lines.
pub write_hides :
    (clean : Text → Text) (x : LogValue) (c : LogSettings) (level : LogLevel) (message : Text)
    (metadata : LogValue)
    → write clean c level message (replace x (codes "metadata") metadata)
      ≡ write clean c level message metadata
unfolding write
write_hides clean x c level message metadata =
    rw (value_same clean x (codes "metadata") metadata) refl
