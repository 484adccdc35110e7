-- ===== src/Prelude/FilePath.antt =====
-- `filepath.Join` and `filepath.Ext` of Go's library, where the separator is a slash.
use mathlib.Core.List.{List, [], ◌∷◌, ◌++◌, reverse}
use mathlib.Core.Bool.{Bool, false, ◌||◌}
use share_hound.Prelude.Tests.{◌==◌, if◌then◌else◌}
use share_hound.Prelude.Text.{Text, codes, eqb, join}
use Prim.Native.Nat.{ℕ}

-- A part before the first part of a list of parts.
abbrev extend : ℕ → List Text → List Text
extend c [] = (c ∷ []) ∷ []
extend c (p ∷ ps) = (c ∷ p) ∷ ps

unfoldable pub split_slash : Text → List Text
split_slash [] = [] ∷ []
split_slash (c ∷ s) = let rest = split_slash s in if c == b'/' then [] ∷ rest else extend c rest

abbrev starts_with_slash : Text → Bool
starts_with_slash [] = false
starts_with_slash (c ∷ s) = c == b'/'

-- One `..`, on the parts that are kept, the last one first.
abbrev up : Bool → List Text → List Text
up rooted [] = if rooted then [] else codes ".." ∷ []
up rooted (p ∷ out) = if eqb p (codes "..") then codes ".." ∷ (p ∷ out) else out

unfoldable pub clean_parts : Bool → List Text → List Text → List Text
unfolding eqb
clean_parts rooted out [] = reverse out
clean_parts rooted out (p ∷ parts) =
    clean_parts rooted
      (if eqb p [] || eqb p (codes ".")
        then out
        else if eqb p (codes "..")
        then up rooted out
        else p ∷ out)
      parts

abbrev dot_if_empty : Text → Text
dot_if_empty [] = codes "."
dot_if_empty (c ∷ s) = c ∷ s

-- `filepath.Clean`
unfoldable pub clean : Text → Text
unfolding split_slash clean_parts
clean path =
    let rooted = starts_with_slash path in
    let parts = clean_parts rooted [] (split_slash path) in
    dot_if_empty (if rooted then b'/' ∷ join (codes "/") parts else join (codes "/") parts)

-- `filepath.Join` of two elements; the first is not empty.
unfoldable pub filepath_join : Text → Text → Text
unfolding clean
filepath_join dir name = if eqb name [] then clean dir else clean (dir ++ (b'/' ∷ name))

unfoldable pub extension_from : Text → Text → Text
extension_from after [] = []
extension_from after (c ∷ before) =
    let rest = extension_from (c ∷ after) before in
    if c == b'/' then [] else if c == b'.' then c ∷ after else rest

-- `filepath.Ext`
unfoldable pub filepath_ext : Text → Text
unfolding extension_from
filepath_ext path = extension_from [] (reverse path)
