-- ===== src/Json/Decode.antt =====
-- `Decode` and `enhanceError` of pkg/util/json/json.go: errors of the decoder with their place.
use aragorn.Prelude.{Str, codes, ℕ, Option, none, some, ◌⊎◌, inl, inr, [], ◌++◌}
use aragorn.Prelude.Decimal.{itoa}

-- An error of the decoder: its text, and its offset where it is of a kind that has one.
pub record JsonError : Type 0 where
  pub text : Str
  pub offset : Option ℕ

-- An io.Reader. `seek` is the result of seeking its start, an error or what there is to read, and
-- none where it cannot seek.
pub record Source : Type 0 where
  pub name : Option Str
  pub content : Str
  pub seek : Option (Str ⊎ Str)

-- errorutil.HighlightBytePosition: a line, a column and the text that shows them.
abbrev pub Highlight : Type 0
Highlight = Str → ℕ → ℕ × (ℕ × Str)

module _ (highlight : Highlight) where
  -- The name of a file with a line and a column.
  place_of : Option Str → ℕ → ℕ → Str
  place_of none line col = []
  place_of (some name) line col =
      codes "\n" ++ (name ++ (codes ":" ++ (itoa line ++ (codes ":" ++ itoa col))))

  shown_at : Str → Option Str → ℕ → ℕ × (ℕ × Str) → Str
  unfolding place_of
  shown_at text name offset (line, (col, shown)) =
      text
      ++ (place_of name line col
          ++ (codes "\nError at line "
              ++ (itoa line
                  ++ (codes ", column "
                      ++ (itoa col
                          ++ (codes " (file offset "
                              ++ (itoa offset ++ (codes "):\n" ++ shown))))))))

  at_offset : Source → Str → ℕ → Option (Str ⊎ Str) → Str
  unfolding shown_at
  at_offset r text offset none = text ++ (codes " (offset " ++ (itoa offset ++ codes ")"))
  at_offset r text offset (some (inl e)) = text ++ (codes ": seek error: " ++ e)
  at_offset r text offset (some (inr content)) =
      shown_at text r.name offset (highlight content offset)

  with_offset : Source → Str → Option ℕ → Str
  unfolding at_offset
  with_offset r text none = text
  with_offset r text (some offset) = at_offset r text offset r.seek

  -- `enhanceError`
  unfoldable pub enhance_error : Source → Option JsonError → Option Str
  unfolding with_offset
  enhance_error r none = none
  enhance_error r (some e) = some (with_offset r e.text e.offset)

  -- `Decode` into a value of a type `A`, by a decoder that keeps the text of numbers and refuses
  -- fields that are not known: the value that it leaves, and the error.
  unfoldable pub decode :
      {A : Type 0} → (Str → A → A × Option JsonError) → Source → A → A × Option Str
  unfolding enhance_error
  decode decoder r a = let (a', e) = decoder r.content a in (a', enhance_error r e)
