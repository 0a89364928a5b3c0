-- ===== src/Payroll/Export/RoundTrip.antt =====
-- Reading an export back.
use reg_pay.Prelude.{
  ℕ, ◌≡◌, refl, sym, ap, ◌∙◌, Bool, true, false, List, [], ◌∷◌, ◌++◌, arith, ◌==◌, ==_iff, any,
  length, map, All, Bool-cases, inl, inr,
}
use reg_pay.Payroll.Export.{
  Text, quote, comma, carriage_return, line_feed, CellValue, text_of, is_special, double_quotes,
  cell, csv_cell, join, content,
}
use reg_pay.Payroll.Export.Reader.{
  Mode, starts, bare, quoted, closing, push, next_cell, next_row, Sort, quotes, plain, sort_of,
  turn, read,
}

append_assoc : (s t u : Text) → (s ++ t) ++ u ≡ s ++ (t ++ u)
append_assoc [] t u = refl
append_assoc (c ∷ s) t u = ap (λ r. c ∷ r) (append_assoc s t u)

append_empty : (t : Text) → t ++ [] ≡ t
append_empty [] = refl
append_empty (c ∷ t) = ap (λ r. c ∷ r) (append_empty t)

-- A text in front of the first cell.
abbrev prepend : Text → List (List Text) → List (List Text)
prepend [] rows = rows
prepend (c ∷ t) rows = push c (prepend t rows)

prepend-empty :
    (t : Text) (cells : List Text) (rows : List (List Text))
    → prepend t (([] ∷ cells) ∷ rows) ≡ (t ∷ cells) ∷ rows
prepend-empty [] cells rows = refl
prepend-empty (c ∷ t) cells rows = ap (push c) (prepend-empty t cells rows)

plain-sort_of : (c : ℕ) → is_special c ≡ false → sort_of c ≡ plain
plain-sort_of c h = ground arith

read-plain :
    (t rest : Text) → any is_special t ≡ false → read (t ++ rest) bare ≡ prepend t (read rest bare)
unfolding read
read-plain [] rest h = refl
read-plain (c ∷ t) rest h =
    let sort = plain-sort_of c (ground arith) in
    let later = read-plain t rest (ground arith) in
    ap (λ s. turn s c (read (t ++ rest)) bare) sort ∙ ap (push c) later

abbrev is_quotes : Sort → Bool
is_quotes quotes = true
is_quotes _ = false

turn-quoted :
    (s : Sort) (c : ℕ) (rest : Mode → List (List Text))
    → is_quotes s ≡ false
    → turn s c rest quoted ≡ push c (rest quoted)
turn-quoted quotes c rest h = cc
turn-quoted _ c rest h = refl

read-quoted :
    (t rest : Text) → read (double_quotes t ++ quote ∷ rest) quoted ≡ prepend t (read rest closing)
unfolding read double_quotes
read-quoted [] rest = refl
read-quoted (c ∷ t) rest = elim (Bool-cases (c == quote)) [
  | inl same ↦ rw same (
      ap (push quote) (read-quoted t rest)
      ∙ ap (λ k. push k (prepend t (read rest closing))) (sym ((==_iff c quote).0 same)))
  | inr other ↦ rw other (
      turn-quoted (sort_of c) c (read (double_quotes t ++ quote ∷ rest)) (ground arith)
      ∙ ap (push c) (read-quoted t rest))
]

-- A rest that ends a cell.
record IsEnd (rest : Text) : Type 0 where
  fresh : read rest starts ≡ read rest bare
  closed : read rest closing ≡ read rest bare

read-simple :
    (t rest : Text)
    → any is_special t ≡ false
    → IsEnd rest
    → read (t ++ rest) starts ≡ prepend t (read rest bare)
unfolding read
read-simple [] rest h end = end.fresh
read-simple (c ∷ t) rest h end =
    ap (λ s. turn s c (read (t ++ rest)) starts) (plain-sort_of c (ground arith))
    ∙ ap (push c) (read-plain t rest (ground arith))

read-cell : (t rest : Text) → IsEnd rest → read (cell t ++ rest) starts ≡ prepend t (read rest bare)
unfolding read cell
read-cell t rest end = elim (Bool-cases (any is_special t)) [
  | inl special ↦ rw special (
      ap (λ u. read u quoted) (append_assoc (double_quotes t) (quote ∷ []) rest)
      ∙ read-quoted t rest
      ∙ ap (prepend t) end.closed)
  | inr simple ↦ rw simple (read-simple t rest simple end)
]

-- The cells of a row in front of the rest.
abbrev in_front : List Text → List (List Text) → List (List Text)
in_front [] rows = rows
in_front (t ∷ []) rows = prepend t rows
in_front (t ∷ u ∷ ts) rows = prepend t (next_cell (in_front (u ∷ ts) rows))

in_front-empty :
    (t : Text) (ts : List Text) (rows : List (List Text))
    → in_front (t ∷ ts) (([] ∷ []) ∷ rows) ≡ (t ∷ ts) ∷ rows
in_front-empty t [] rows = prepend-empty t [] rows
in_front-empty t (u ∷ ts) rows =
    ap (λ r. prepend t (next_cell r)) (in_front-empty u ts rows) ∙ prepend-empty t (u ∷ ts) rows

comma-IsEnd : (rest : Text) → IsEnd (comma ∷ rest)
unfolding read
comma-IsEnd rest = record { fresh = refl; closed = refl }

return-IsEnd : (rest : Text) → IsEnd (carriage_return ∷ rest)
unfolding read
return-IsEnd rest = record { fresh = refl; closed = refl }

read-row :
    (v : CellValue) (vs : List CellValue) (rest : Text)
    → IsEnd rest
    → read (join (comma ∷ []) (map csv_cell (v ∷ vs)) ++ rest) starts
      ≡ in_front (map text_of (v ∷ vs)) (read rest bare)
unfolding read csv_cell join
read-row v [] rest end = read-cell (text_of v) rest end
read-row v (w ∷ vs) rest end =
    let later = join (comma ∷ []) (map csv_cell (w ∷ vs)) in
    ap (λ u. read u starts) (append_assoc (csv_cell v) (comma ∷ later) rest)
    ∙ read-cell (text_of v) (comma ∷ later ++ rest) (comma-IsEnd (later ++ rest))
    ∙ ap (λ r. prepend (text_of v) (next_cell r)) (read-row w vs rest end)

-- A row has a cell.
abbrev pub IsRow : List CellValue → Type 0
IsRow row = (length row == 0) ≡ false

-- The export of a table with a cell in every row reads back as the texts of its cells, row by row,
-- whatever quotes, commas and line breaks the texts hold.
pub read-content :
    (header : List CellValue) (rows : List (List CellValue))
    → All IsRow (header ∷ rows)
    → read (content (header ∷ rows)) starts ≡ map (λ row. map text_of row) (header ∷ rows)
unfolding read content join
read-content [] rows h = absurd (ground arith)
read-content (v ∷ vs) [] h =
    ap (λ u. read u starts) (sym (append_empty (join (comma ∷ []) (map csv_cell (v ∷ vs)))))
    ∙ read-row v vs [] (record { fresh = refl; closed = refl })
    ∙ in_front-empty (text_of v) (map text_of vs) []
read-content (v ∷ vs) (row ∷ rows) h =
    let rest = content (row ∷ rows) in
    read-row v vs (carriage_return ∷ line_feed ∷ rest) (return-IsEnd (line_feed ∷ rest))
    ∙ ap (λ r. in_front (map text_of (v ∷ vs)) (next_row r)) (read-content row rows h.1)
    ∙ in_front-empty (text_of v) (map text_of vs) (map (λ r. map text_of r) (row ∷ rows))
