-- ===== src/Testsuite/Header/Merge.antt =====
-- What MergeHeaders of testsuite/testsuite.go finds for a key.
mod Tests
use aragorn.Prelude.{
  Str, str_eq, str_eq_iff, ◌≡◌, ◌≢◌, refl, ◌∙◌, sym, Option, none, some, List, [], ◌∷◌, ◌++◌, arith,
  if◌then◌else◌,
}
use aragorn.Prelude.Assoc.{Assoc, get, put, get-put}
use aragorn.Testsuite.Header.{Header, copy, merge_from, merge_headers}

-- A map holds one entry for a key.
abbrev pub HasNewKey : Str → Header → Type 0
HasNewKey k h = get k h ≡ none

abbrev pub HasDistinctKeys : Header → Type 0
HasDistinctKeys [] = Unit
HasDistinctKeys ((k, v) ∷ h) = HasNewKey k h × HasDistinctKeys h

-- The second, where it has a value, goes before the first.
abbrev pub or_else : Option Str → Option Str → Option Str
or_else none o = o
or_else (some v) o = some v

get-copy :
    (k : Str) (h src : Header)
    → HasDistinctKeys src
    → get k (copy h src) ≡ or_else (get k src) (get k h)
unfolding copy get
get-copy k h [] d = refl
get-copy k h ((j, v) ∷ src) (new, d) =
    get-copy k (put j v h) src d ∙ ground (arith, get-put j k v h, str_eq_iff j k)

-- The last header that has the key decides.
abbrev pub last_value : Str → Option Str → List Header → Option Str
last_value k found [] = found
last_value k found (h ∷ hs) = last_value k (or_else (get k h) found) hs

abbrev pub AllDistinct : List Header → Type 0
AllDistinct [] = Unit
AllDistinct (h ∷ hs) = HasDistinctKeys h × AllDistinct hs

get-merge_from :
    (k : Str) (res : Header) (hs : List Header)
    → AllDistinct hs
    → get k (merge_from res hs) ≡ last_value k (get k res) hs
unfolding merge_from
get-merge_from k res [] d = refl
get-merge_from k res (h ∷ hs) (dh, d) =
    get-merge_from k (copy res h) hs d ∙ rw (get-copy k res h dh)

-- For each key, the merged headers hold the value of the last of the given headers that has the key,
-- and no value when none has it; each given header has distinct keys, as a Go map does.
pub get-merge_headers :
    (k : Str) (hs : List Header) → AllDistinct hs → get k (merge_headers hs) ≡ last_value k none hs
unfolding merge_headers get
get-merge_headers k hs d = get-merge_from k [] hs d
