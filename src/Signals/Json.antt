-- ===== src/Signals/Json.antt =====
-- `extractJSONPath` of internal/controller/signals.go: the number at a dotted path of a document.
pub mod Paths
use app_lifecycle_kubernetes.Base.{
  ℕ, suc, String, Bool, Option, none, some, List, [], ◌∷◌, Result, ok, err, message, str_eq,
  if◌then◌else◌,
}
use app_lifecycle_kubernetes.Base.Int.{pos}
use app_lifecycle_kubernetes.Base.Decimal.{number}
use app_lifecycle_kubernetes.Base.Text.{◌+++◌, split}

-- A document as encoding/json decodes it into an interface value, over float64. What an array holds is
-- never read.
mutual
  pub data Json (F : Type 0) : Type 0 where
    null array : Json F
    bool : Bool → Json F
    float : F → Json F
    text : String → Json F
    object : Fields F → Json F

  pub data Fields (F : Type 0) : Type 0 where
    end : Fields F
    field : String → Json F → Fields F → Fields F

-- A document has each key once, as a map has.
unfoldable pub get_field : {F : Type 0} → String → Fields F → Option (Json F)
get_field key end = none
get_field key (field k v rest) =
    let later = get_field key rest in if str_eq k key then some v else later

-- `%T` of a value.
abbrev type_text : {F : Type 0} → Json F → String
type_text null = "<nil>"
type_text array = "[]interface {}"
type_text (bool b) = "bool"
type_text (float f) = "float64"
type_text (text s) = "string"
type_text (object fs) = "map[string]interface {}"

abbrev or_missing : {F : Type 0} → String → ℕ → Option (Json F) → Result (Json F)
or_missing key i (some v) = ok v
or_missing key i none =
    err (message ("key '" +++ (key +++ ("' not found at path segment " +++ number i))))

-- The value of a key, of an object only.
unfoldable pub step_into : {F : Type 0} → String → ℕ → Json F → Result (Json F)
unfolding get_field
step_into key i (object fs) = or_missing key i (get_field key fs)
step_into key i _ = err (
    message
      ("path segment '" +++ (key +++ ("' at position " +++ (number i +++ " is not an object")))))

-- A decoder makes every number a float64.
unfoldable pub as_number : {F : Type 0} → String → Json F → Result F
as_number path (float f) = ok f
as_number path v = err (
    message
      ("value at path '" +++ (path +++ ("' is not a number (got " +++ (type_text v +++ ")")))))

-- The loop over the keys of a path, from the key at a position on.
unfoldable pub walk_path : {F : Type 0} → String → ℕ → List String → Json F → Result F
unfolding step_into as_number
walk_path path i [] current = err (message ("unexpected end of path '" +++ (path +++ "'")))
walk_path path i (key ∷ []) current = elim (step_into key i current) [
  | err e ↦ err e
  | ok v ↦ as_number path v
]
walk_path path i (key ∷ next ∷ rest) current = elim (step_into key i current) [
  | err e ↦ err e
  | ok v ↦ walk_path path (suc i) (next ∷ rest) v
]

unfoldable pub extract_json_path : {F : Type 0} → Json F → String → Result F
unfolding walk_path
extract_json_path document path = walk_path path 0 (split path ".") document
