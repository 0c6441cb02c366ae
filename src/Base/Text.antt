-- ===== src/Base/Text.antt =====
-- Texts: Go's `strings.Join`, `ToLower`, `Contains` and `Split` as far as the source uses them.
use Prim.Native.Char.{Char, code}
use Prim.Native.Nat.{◌+◌}
use Prim.Native.String.{String, ◌++◌}
use mathlib.Core.Bool.{Bool, true, false, ◌||◌, ◌&&◌}
use mathlib.Core.List.{List, [], ◌∷◌}
use mathlib.Core.Path.{◌≡◌, refl}
use mathlib.Core.Logic.{inl, inr}
use app_lifecycle_kubernetes.Base.Tests.{ltb, ◌==◌, if◌then◌else◌, Bool-cases}

infixr 65 ◌+++◌
abbrev pub ◌+++◌ : String → String → String
s +++ t = s ++ t

-- `strings.Join`
unfoldable pub join : List String → String → String
join [] sep = ""
join (s ∷ []) sep = s
join (s ∷ t ∷ rest) sep = s +++ (sep +++ join (t ∷ rest) sep)

-- `c` is the letter `l` of the lower case, or that letter's upper case; of the characters outside
-- ASCII, `ToLower` makes an i of İ alone.
abbrev matches_folded : Char → Char → Bool
matches_folded l c =
    code c == code l
    || (ltb 64 (code c) && ltb (code c) 91 && code c + 32 == code l)
    || (code c == 304 && code l == 105)

starts_folded : String → String → Bool
starts_folded String.[] s = true
starts_folded (String.◌∷◌ l word) String.[] = false
starts_folded (String.◌∷◌ l word) (String.◌∷◌ c s) = matches_folded l c && starts_folded word s

-- `strings.Contains(strings.ToLower(s), word)` for a word of lower case ASCII letters and spaces.
unfoldable pub contains_folded : String → String → Bool
unfolding starts_folded
contains_folded word String.[] = starts_folded word String.[]
contains_folded word (String.◌∷◌ c s) =
    starts_folded word (String.◌∷◌ c s) || contains_folded word s

starts_with : String → String → Bool
starts_with String.[] s = true
starts_with (String.◌∷◌ l word) String.[] = false
starts_with (String.◌∷◌ l word) (String.◌∷◌ c s) = code l == code c && starts_with word s

-- `strings.Contains(s, word)`
unfoldable pub contains : String → String → Bool
unfolding starts_with
contains word String.[] = starts_with word String.[]
contains word (String.◌∷◌ c s) = starts_with word (String.◌∷◌ c s) || contains word s

-- A character in front of the first of some parts.
abbrev onto_first : Char → List String → List String
onto_first c [] = String.◌∷◌ c "" ∷ []
onto_first c (part ∷ rest) = String.◌∷◌ c part ∷ rest

-- `strings.Split` at a single character.
unfoldable pub split : String → Char → List String
split String.[] sep = "" ∷ []
split (String.◌∷◌ c s) sep =
    let rest = split s sep in if code c == code sep then "" ∷ rest else onto_first c rest

onto_first_parts :
    (c : Char) (parts : List String)
    → (key : String) × (keys : List String) × (onto_first c parts ≡ key ∷ keys)
onto_first_parts c [] = (_, _, refl)
onto_first_parts c (part ∷ rest) = (_, _, refl)

-- There is always a first part.
pub split_parts :
    (s : String) (sep : Char) → (key : String) × (keys : List String) × (split s sep ≡ key ∷ keys)
unfolding split
split_parts String.[] sep = (_, _, refl)
split_parts (String.◌∷◌ c s) sep = elim (Bool-cases (code c == code sep)) [
  | inl y ↦ rw y (_, _, refl)
  | inr n ↦ rw n (onto_first_parts c (split s sep))
]
