-- ===== src/Queue/Avro.antt =====
-- schema.go, validateJSONAgainstAvro and validateJSONValueAgainstAvro: a structural check of a JSON
-- payload against an Avro schema. What the code asks of hamba/avro is the shape of a schema; what it
-- asks of encoding/json is the record `Json`, a parameter.
use queue_ti.Base.{Bool, true, false, Option, none, some, List, ◌&&◌, ◌||◌, if◌then◌else◌}
use queue_ti.Base.Text.{Text, bytes, text_eq}
use queue_ti.Base.Map

-- `other` is bytes, fixed, enum, array, map and references, which are not looked into.
mutual
  pub data Schema : Type 0 where
    null string int long float double boolean other : Schema
    record_of : Fields → Schema
    union_of : Branches → Schema

  pub data Fields : Type 0 where
    end : Fields
    field : Text → Bool → Schema → Fields → Fields

  pub data Branches : Type 0 where
    stop : Branches
    branch : Schema → Branches → Branches

-- json.Unmarshal into `any`, `string`, `bool`, json.Number (the literal) and map[string]RawMessage;
-- json.Number.Int64.
pub record Json : Type 0 where
  pub is_valid : Text → Bool
  pub is_string : Text → Bool
  pub is_boolean : Text → Bool
  pub number : Text → Option Text
  pub is_int64 : Text → Bool
  pub object : Text → Option (List (Text × Text))

abbrev pub null_literal : Text
null_literal = bytes "null"

abbrev pub is_some {ℓ} : {A : Type ℓ} → Option A → Bool
is_some none = false
is_some (some a) = true

-- u.Types() has a null type.
unfoldable pub has_null : Branches → Bool
has_null stop = false
has_null (branch null bs) = true
has_null (branch _ bs) = has_null bs

-- The early test of a null literal.
unfoldable pub accepts_null : Schema → Bool
unfolding has_null
accepts_null null = true
accepts_null (union_of bs) = has_null bs
accepts_null _ = false

-- Int and Long want a number that fits int64.
unfoldable pub is_integer : Json → Text → Bool
is_integer j raw = elim (j.number raw) [ none ↦ false | some n ↦ j.is_int64 n ]

unfoldable mutual
  unfolding accepts_null is_integer

  -- validateJSONValueAgainstAvro; `true` is a nil error.
  pub validate_value : Json → Schema → Text → Bool
  validate_value j null raw = if text_eq raw null_literal then true else j.is_valid raw
  validate_value j string raw = if text_eq raw null_literal then false else j.is_string raw
  validate_value j int raw = if text_eq raw null_literal then false else is_integer j raw
  validate_value j long raw = if text_eq raw null_literal then false else is_integer j raw
  validate_value j float raw = if text_eq raw null_literal then false else is_some (j.number raw)
  validate_value j double raw = if text_eq raw null_literal then false else is_some (j.number raw)
  validate_value j boolean raw = if text_eq raw null_literal then false else j.is_boolean raw
  validate_value j other raw = if text_eq raw null_literal then false else j.is_valid raw
  validate_value j (record_of fs) raw =
      if text_eq raw null_literal then false else validate_object j fs (j.object raw)
  validate_value j (union_of bs) raw =
      if text_eq raw null_literal then has_null bs else validate_branches j bs raw

  pub validate_branches : Json → Branches → Text → Bool
  validate_branches j stop raw = false
  validate_branches j (branch s bs) raw = validate_value j s raw || validate_branches j bs raw

  pub validate_object : Json → Fields → Option (List (Text × Text)) → Bool
  validate_object j fs none = false
  validate_object j end (some doc) = true
  validate_object j (field name has_default s fs) (some doc) =
      elim (Map.lookup name doc) [ none ↦ has_default | some raw ↦ validate_value j s raw ]
      && validate_object j fs (some doc)

-- validateJSONAgainstAvro
unfoldable pub validate_json : Json → Schema → Text → Bool
unfolding validate_object
validate_json j (record_of fs) payload = validate_object j fs (j.object payload)
validate_json j _ payload = j.is_valid payload
