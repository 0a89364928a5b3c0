-- ===== src/Payroll/Export.antt =====
-- The cells and the rows of a CSV export: `csvCell` and the last step of `exportBatchCsv` in
-- backend/src/payroll/payroll.service.ts. A text is a list of UTF-16 code units.
pub mod Reader
pub mod RoundTrip
mod Tests
use reg_pay.Prelude.{
  ℕ, Bool, true, false, ◌&&◌, ◌||◌, List, [], ◌∷◌, ◌++◌, Option, none, some, ◌==◌, any, map,
  if◌then◌else◌,
}

abbrev pub Text : Type 0
Text = List ℕ

-- `===` on texts
abbrev pub same_text : Text → Text → Bool
same_text [] [] = true
same_text [] (d ∷ u) = false
same_text (c ∷ t) [] = false
same_text (c ∷ t) (d ∷ u) = (c == d) && same_text t u

abbrev pub quote : ℕ
quote = 34

abbrev pub comma : ℕ
comma = 44

abbrev pub carriage_return : ℕ
carriage_return = 13

abbrev pub line_feed : ℕ
line_feed = 10

-- What a value is to `csvCell`, with the text that the runtime gives for it: the `toString` of a
-- number, a boolean or a big integer, the description of a symbol, `JSON.stringify` of an object.
pub data CellValue : Type 0 where
  missing other : CellValue
  string primitive : Text → CellValue
  symbol object : Option Text → CellValue

abbrev pub text_of : CellValue → Text
text_of missing = []
text_of other = []
text_of (string t) = t
text_of (primitive t) = t
text_of (symbol none) = []
text_of (symbol (some t)) = t
text_of (object none) = []
text_of (object (some t)) = t

-- `/[",\r\n]/`
abbrev pub is_special : ℕ → Bool
is_special c = c == quote || (c == comma || (c == carriage_return || c == line_feed))

-- `text.replace(/"/g, '""')`
unfoldable pub double_quotes : Text → Text
double_quotes [] = []
double_quotes (c ∷ t) = if c == quote then quote ∷ quote ∷ double_quotes t else c ∷ double_quotes t

-- The cell of a text.
unfoldable pub cell : Text → Text
unfolding double_quotes
cell t = if any is_special t then quote ∷ double_quotes t ++ quote ∷ [] else t

unfoldable pub csv_cell : CellValue → Text
csv_cell value = cell (text_of value)

-- `Array.prototype.join`
unfoldable pub join : Text → List Text → Text
join separator [] = []
join separator (t ∷ []) = t
join separator (t ∷ u ∷ ts) = t ++ (separator ++ join separator (u ∷ ts))

-- The content of the export, from its header and its rows.
unfoldable pub content : List (List CellValue) → Text
content rows =
    join (carriage_return ∷ line_feed ∷ []) (map (λ row. join (comma ∷ []) (map csv_cell row)) rows)
