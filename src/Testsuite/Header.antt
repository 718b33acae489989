-- ===== src/Testsuite/Header.antt =====
-- The type Header of testsuite/testsuite.go.
pub mod Merge
use aragorn.Prelude.{Str, codes, List, [], ◌∷◌, ◌++◌}
use aragorn.Prelude.Assoc.{Assoc, put}

abbrev pub Header : Type 0
Header = Assoc Str

-- `Header.Copy`: the entries of `src` are written over those of `h`.
copy : Header → Header → Header
copy h [] = h
copy h ((k, v) ∷ src) = copy (put k v h) src

-- `for _, h := range hs { res.Copy(h) }`
merge_from : Header → List Header → Header
unfolding copy
merge_from res [] = res
merge_from res (h ∷ hs) = merge_from (copy res h) hs

pub merge_headers : List Header → Header
unfolding merge_from
merge_headers hs = merge_from [] hs

-- `Header.Slice`
pub slice : Header → List Str
slice [] = []
slice ((k, v) ∷ h) = (k ++ (codes ":" ++ v)) ∷ slice h
