-- ===== src/Payroll/Export/Tests.antt =====
-- An export of two rows, with a comma, a quote and a line break in its cells.
use reg_pay.Prelude.{◌≡◌, refl, List, [], ◌∷◌, some, arith, map}
use reg_pay.Payroll.Export.{
  CellValue, missing, string, symbol, text_of, quote, comma, line_feed, double_quotes, cell,
  csv_cell, join, content,
}
use reg_pay.Payroll.Export.Reader.{starts, read}
use reg_pay.Payroll.Export.RoundTrip.{read-content}

abbrev header : List CellValue
header = string (65 ∷ comma ∷ 66 ∷ []) ∷ missing ∷ []

abbrev row : List CellValue
row = string (quote ∷ 67 ∷ line_feed ∷ []) ∷ symbol (some (68 ∷ [])) ∷ []

-- The text `"A,B",` and, on the next line, `"""C` with a line break and `",D`.
exported :
    content (header ∷ row ∷ [])
    ≡ 34 ∷ 65 ∷ 44 ∷ 66 ∷ 34 ∷ 44 ∷ 13 ∷ 10 ∷ 34 ∷ 34 ∷ 34 ∷ 67 ∷ 10 ∷ 34 ∷ 44 ∷ 68 ∷ []
unfolding content join csv_cell cell double_quotes
exported = refl

read-content_example :
    read (content (header ∷ row ∷ [])) starts ≡ map (λ r. map text_of r) (header ∷ row ∷ [])
read-content_example = read-content header (row ∷ []) (ground arith)
