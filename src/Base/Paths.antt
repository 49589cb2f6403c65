-- ===== src/Base/Paths.antt =====
-- `Path::starts_with`: paths are compared by their components. A leading `/` is a component, empty
-- components and `.` are none (a `.` in front of a relative path is one), as in `Path::components`.
use Prim.Native.Nat.{ℕ}
use Prim.Native.Char.{Char, code}
use Prim.Native.String.{String}
use mathlib.Core.Bool.{Bool, true, false, ◌&&◌, ◌||◌}
use mathlib.Core.List.{List, [], ◌∷◌}
use checkc.Base.Tests.{if◌then◌else◌, nat_beq}
use checkc.Base.Equality.{◌==◌, string_eq}

-- A character in front of the first piece.
unfoldable pub prepend : Char → List String → List String
prepend c [] = String.◌∷◌ c "" ∷ []
prepend c (p ∷ ps) = String.◌∷◌ c p ∷ ps

-- The pieces of a text between the separators of the given code.
unfoldable pub split_on : ℕ → String → List String
split_on sep String.[] = "" ∷ []
split_on sep (String.◌∷◌ c s) =
    let rest = split_on sep s in if nat_beq (code c) sep then "" ∷ rest else prepend c rest

unfoldable pub normal_components : List String → List String
normal_components [] = []
normal_components (p ∷ ps) =
    let rest = normal_components ps in if p == "" || p == "." then rest else p ∷ rest

-- The first piece is empty for an absolute path and for the empty path.
unfoldable pub components_of : List String → List String
components_of [] = []
components_of (p ∷ []) = if p == "" then [] else p ∷ []
components_of (p ∷ q ∷ ps) =
    let rest = normal_components (q ∷ ps) in if p == "" then "/" ∷ rest else p ∷ rest

unfoldable pub components : String → List String
unfolding split_on prepend components_of normal_components
components s = components_of (split_on b'/' s)

unfoldable pub is_prefix : List String → List String → Bool
is_prefix [] ys = true
is_prefix (x ∷ xs) [] = false
is_prefix (x ∷ xs) (y ∷ ys) = x == y && is_prefix xs ys

unfoldable pub path_starts_with : String → String → Bool
unfolding components is_prefix
path_starts_with path base = is_prefix (components base) (components path)
