-- ===== src/BuildSync/Checks.antt =====
-- What `_validate_build_data` of kermp/buildsync.py lets through.
use text.Mathlib.Text.{starts_with}
use ker_mp.Prelude.{
  Bool, Option, String, if◌then◌else◌, none, some, text_eq, ◌||◌, ◌≡◌, Bool-cases, arith, eq_iff,
  inl, inr, refl, ap, false, length, true, ◌∙◌, ◌≢◌, ◌≤◌,
}
use ker_mp.Prelude.Dict.{get, get-put, put}
use ker_mp.Value.{Payload, Value, null, str, string, get_value}
use ker_mp.BuildSync.Validate.{
  as_text, ids_as_text, check_required, is_number, is_object_operation, lacks, max_build_data_keys,
  validate_build_data, check_entries,
}
use ker_mp.Prelude.Errors.{ok}

-- An id as text; null and a missing id stay.
unfoldable pub id_text : Option Value → Option Value
id_text none = none
id_text (some null) = some null
id_text (some v) = some (string (str v))

abbrev pub is_id_key : String → Bool
is_id_key k =
    text_eq "object_id" k
    || text_eq "parent_id" k
    || text_eq "definition_id" k
    || text_eq "household_id" k
    || text_eq "zone_id" k
    || text_eq "routing_surface_id" k

get-put_text :
    (j k : String) (v w : Value) (d : Payload)
    → get j d ≡ some v
    → id_text (some v) ≡ some w
    → get k (put j w d) ≡ (if text_eq j k then id_text (get k d) else get k d)
get-put_text j k v w d h e = rw (get-put j k w d) (elim (Bool-cases (text_eq j k)) [
  | inr other ↦ rw other
  | inl same ↦ rw (same, ← (eq_iff j k).0 same, h, e)
])

as_text-kept :
    (j k : String) (d : Payload)
    → id_text (get j d) ≡ get j d
    → get k d ≡ (if text_eq j k then id_text (get k d) else get k d)
as_text-kept j k d h = elim (Bool-cases (text_eq j k)) [
  | inr other ↦ rw other
  | inl same ↦ rw (same, ← (eq_iff j k).0 same, h)
]

as_text_of : String → Option Value → Payload → Payload
as_text_of key found d = elim found [
  | none ↦ d
  | some null ↦ d
  | some v ↦ put key (string (str v)) d
]

get-as_text_of :
    (j k : String) (o : Option Value) (d : Payload)
    → get j d ≡ o
    → get k (as_text_of j o d) ≡ (if text_eq j k then id_text (get k d) else get k d)
unfolding as_text_of id_text
get-as_text_of j k none d h = as_text-kept j k d (rw h)
get-as_text_of j k (some null) d h = as_text-kept j k d (rw h)
get-as_text_of j k (some v) d h = get-put_text j k v (string (str v)) d h refl

get-as_text :
    (j k : String) (d : Payload)
    → get k (as_text j d) ≡ (if text_eq j k then id_text (get k d) else get k d)
unfolding as_text as_text_of
get-as_text j k d = get-as_text_of j k (get j d) d refl

id_text_idem : (o : Option Value) → id_text (id_text o) ≡ id_text o
unfolding id_text str
id_text_idem none = refl
id_text_idem (some null) = refl
id_text_idem (some v) = refl

get-ids_as_text :
    (k : String) (d : Payload)
    → get k (ids_as_text d) ≡ (if is_id_key k then id_text (get k d) else get k d)
unfolding ids_as_text
get-ids_as_text k d = simp get-as_text (ground (arith, id_text_idem (get k d)))

-- Data that passes: the operation is known, there are at most 32 keys, every id that is not null is
-- a text now and all else is as it was sent; the fields that the operation needs are there.
pub validate_effect :
    (op : String) (d r : Payload)
    → validate_build_data op d ≡ ok r
    → (is_object_operation op ≡ true)
      × (length d ≤ max_build_data_keys)
      × ((k : String) → get k r ≡ (if is_id_key k then id_text (get k d) else get k d))
      × (starts_with op "object." ≡ true → op ≢ "object.create" → lacks "object_id" r ≡ false)
      × (op ≡ "object.create" → lacks "definition_id" r ≡ false)
      × (op ≡ "funds.modify"
          → (lacks "household_id" r ≡ false) × (is_number (get_value "amount" r) ≡ true))
unfolding validate_build_data check_required
validate_effect op d r h =
    let same : r ≡ ids_as_text d = ground arith in
    (
      ground arith,
      ground arith,
      λ k. ap (get k) same ∙ get-ids_as_text k d,
      λ o c. ground (arith, eq_iff op "object.create"),
      λ c. ground (arith, eq_iff op "object.create"),
      λ c. (ground (arith, eq_iff op "funds.modify"), ground (arith, eq_iff op "funds.modify")),
    )

-- An object operation other than a creation is accepted with a null object_id, whose text "None"
-- passes for an id.
pub null_object_id :
    (op : String) (d : Payload)
    → is_object_operation op ≡ true
    → op ≢ "object.create"
    → op ≢ "funds.modify"
    → length d ≤ max_build_data_keys
    → check_entries d ≡ ok tt
    → get "object_id" d ≡ some null
    → validate_build_data op d ≡ ok (ids_as_text d)
unfolding validate_build_data check_required lacks str id_text
null_object_id op d known c f short entries h = ground (
  arith,
  eq_iff op "object.create",
  eq_iff op "funds.modify",
  known,
  entries,
  get-ids_as_text "object_id" d,
  h,
)
