-- ===== src/Signals/Json/Paths.antt =====
-- A number that is put at a path of a document is the one that is read there.
use app_lifecycle_kubernetes.Base.{
  ℕ, suc, String, Option, none, some, List, [], ◌∷◌, ◌≡◌, ◌∙◌, refl, ok, str_eq, arith,
  if◌then◌else◌,
}
use text.Mathlib.TextEquality.{eq_iff as str_eq_iff}
use app_lifecycle_kubernetes.Base.Text.{split, split_parts}
use app_lifecycle_kubernetes.Signals.Json.{
  Json, Fields, null, object, end, field, float, get_field, step_into, as_number, walk_path,
  extract_json_path,
}

-- A document with a field set, the others kept.
abbrev pub set_field : {F : Type 0} → String → Json F → Fields F → Fields F
set_field key v end = field key v end
set_field key v (field k u rest) =
    let later = set_field key v rest in if str_eq k key then field k v rest else field k u later

abbrev pub fields_of : {F : Type 0} → Json F → Fields F
fields_of (object fs) = fs
fields_of _ = end

abbrev or_null : {F : Type 0} → Option (Json F) → Json F
or_null (some v) = v
or_null none = null

-- A document with a number put at a path, what stands beside the path kept.
abbrev pub put : {F : Type 0} → List String → F → Json F → Json F
unfolding get_field
put [] f document = float f
put (key ∷ keys) f document =
    let inner = put keys f (or_null (get_field key (fields_of document))) in
    object (set_field key inner (fields_of document))

get_field-set_field :
    {F : Type 0} (key : String) (v : Json F) (fs : Fields F)
    → get_field key (set_field key v fs) ≡ some v
unfolding get_field
get_field-set_field key v end = ground (arith, str_eq_iff key key)
get_field-set_field key v (field k u rest) =
    ground (arith, str_eq_iff k key, str_eq_iff key key, get_field-set_field key v rest)

step_into-put :
    {F : Type 0} (i : ℕ) (key : String) (keys : List String) (f : F) (document : Json F)
    → step_into key i (put (key ∷ keys) f document)
      ≡ ok (put keys f (or_null (get_field key (fields_of document))))
unfolding step_into
step_into-put i key keys f document =
    rw
      (get_field-set_field key (put keys f (or_null (get_field key (fields_of document))))
        (fields_of document))
      refl

-- A step of the walk, at the last key and before it.
walk_path-last :
    {F : Type 0} (path : String) (i : ℕ) (key : String) (document v : Json F)
    → step_into key i document ≡ ok v
    → walk_path path i (key ∷ []) document ≡ as_number path v
unfolding walk_path
walk_path-last path i key document v e = rw (walk_path, e) refl

walk_path-next :
    {F : Type 0} (path : String) (i : ℕ) (key next : String) (rest : List String)
    (document v : Json F)
    → step_into key i document ≡ ok v
    → walk_path path i (key ∷ next ∷ rest) document ≡ walk_path path (suc i) (next ∷ rest) v
unfolding walk_path
walk_path-next path i key next rest document v e = rw (walk_path, e) refl

walk_path-put :
    {F : Type 0} (path : String) (i : ℕ) (key : String) (keys : List String) (f : F)
    (document : Json F)
    → walk_path path i (key ∷ keys) (put (key ∷ keys) f document) ≡ ok f
unfolding walk_path as_number
walk_path-put path i key [] f document =
    walk_path-last path i key (put (key ∷ []) f document) (float f)
      (step_into-put i key [] f document)
walk_path-put path i key (next ∷ rest) f document =
    walk_path-next path i key next rest (put (key ∷ next ∷ rest) f document) _
      (step_into-put i key (next ∷ rest) f document)
    ∙ walk_path-put path (suc i) next rest f (or_null (get_field key (fields_of document)))

-- A number that is put at a dotted path of any document is the number that is read at that path.
pub extract_json_path-put :
    {F : Type 0} (path : String) (f : F) (document : Json F)
    → extract_json_path (put (split path ".") f document) path ≡ ok f
unfolding extract_json_path
extract_json_path-put path f document =
    let (key, keys, e) = split_parts path "." in rw e (walk_path-put path 0 key keys f document)
