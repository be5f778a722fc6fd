-- ===== src/Cmd/Json.antt =====
-- krennic/cmd/krennic/commands.go: `nested`, on the values that encoding/json decodes into `any`.
-- Null, numbers, Booleans and arrays are not told apart.
use director_orson_callan_kr.Base.{Bytes, Option, none, some, List, [], ◌∷◌, str_eq, if◌then◌else◌}

mutual
  pub data Json : Type 0 where
    text : Bytes → Json
    object : Fields → Json
    other : Json

  pub data Fields : Type 0 where
    end : Fields
    field : Bytes → Json → Fields → Fields

-- m[k]; a missing key is nil.
unfoldable pub lookup : Bytes → Fields → Json
unfolding str_eq
lookup k end = other
lookup k (field j v m) = if str_eq j k then v else lookup k m

-- v.(map[string]any)
abbrev pub as_object : Json → Option Fields
as_object (object m) = some m
as_object _ = none

-- v.(string), and the empty text if it is none.
abbrev pub as_text : Json → Bytes
as_text (text s) = s
as_text _ = []

unfoldable pub nested : Option Fields → List Bytes → Bytes
unfolding lookup
nested m [] = []
nested none (k ∷ ks) = []
nested (some m) (k ∷ []) = as_text (lookup k m)
nested (some m) (k ∷ j ∷ ks) = nested (as_object (lookup k m)) (j ∷ ks)
