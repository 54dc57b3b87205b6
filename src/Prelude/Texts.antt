-- ===== src/Prelude/Texts.antt =====
-- Python's strings as lists of code points, with the operations that the code uses.
use Prim.Native.Nat.{ℕ}
use mathlib.Core.Bool.{Bool, true, false, ◌&&◌, ◌||◌}
use mathlib.Core.List.{List, [], ◌∷◌}
use dr_exec.Prelude.Tests.{◌==◌, if◌then◌else◌}

abbrev pub Text : Type 0
Text = List ℕ

abbrev pub same_text : Text → Text → Bool
same_text [] [] = true
same_text [] (y ∷ ys) = false
same_text (x ∷ xs) [] = false
same_text (x ∷ xs) (y ∷ ys) = (x == y) && same_text xs ys

-- `c in text`, for one character.
abbrev pub has_char : ℕ → Text → Bool
has_char c [] = false
has_char c (x ∷ xs) = (c == x) || has_char c xs

-- `text in texts`.
abbrev pub has_text : Text → List Text → Bool
has_text t [] = false
has_text t (x ∷ xs) = same_text t x || has_text t xs

-- `len(set(texts)) == len(texts)`: no text comes twice.
abbrev pub all_different : List Text → Bool
all_different [] = true
all_different (t ∷ ts) = if has_text t ts then false else all_different ts

-- `set(a) & set(b)` is not empty.
abbrev pub any_common : List Text → List Text → Bool
any_common [] b = false
any_common (t ∷ ts) b = has_text t b || any_common ts b

prefix_first : ℕ → List Text → List Text
prefix_first c [] = (c ∷ []) ∷ []
prefix_first c (t ∷ ts) = (c ∷ t) ∷ ts

-- `text.split(separator)`, for one character: at least one part.
unfoldable pub split_on : ℕ → Text → List Text
unfolding prefix_first
split_on separator [] = [] ∷ []
split_on separator (c ∷ cs) =
    let parts = split_on separator cs in if c == separator then [] ∷ parts else prefix_first c parts

-- `PurePosixPath(text).is_absolute()`.
abbrev pub is_absolute : Text → Bool
is_absolute [] = false
is_absolute (c ∷ cs) = c == b'/'
