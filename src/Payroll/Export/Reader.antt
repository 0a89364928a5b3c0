-- ===== src/Payroll/Export/Reader.antt =====
-- A reader of comma-separated values after RFC 4180, for stating what an export means.
use reg_pay.Prelude.{ℕ, true, false, List, [], ◌∷◌, ◌==◌}
use reg_pay.Payroll.Export.{Text, quote, comma, carriage_return, line_feed}

-- At the start of a cell, inside one without quotes, inside quotes, after a quote in quotes, and
-- after a carriage return.
pub data Mode : Type 0 where
  starts bare quoted closing returns : Mode

-- The rows of the rest, with the cell that is being read in front.
abbrev pub push : ℕ → List (List Text) → List (List Text)
push c [] = []
push c ([] ∷ rows) = [] ∷ rows
push c ((t ∷ cells) ∷ rows) = ((c ∷ t) ∷ cells) ∷ rows

abbrev pub next_cell : List (List Text) → List (List Text)
next_cell [] = []
next_cell (row ∷ rows) = ([] ∷ row) ∷ rows

abbrev pub next_row : List (List Text) → List (List Text)
next_row rows = ([] ∷ []) ∷ rows

pub data Sort : Type 0 where
  quotes commas ends feeds plain : Sort

abbrev pub sort_of : ℕ → Sort
sort_of c = elim (c == quote) [
  | true ↦ quotes
  | false ↦ elim (c == comma) [
    | true ↦ commas
    | false ↦ elim (c == carriage_return) [
      | true ↦ ends
      | false ↦ elim (c == line_feed) [ true ↦ feeds | false ↦ plain ]
    ]
  ]
]

-- One code unit, before what the reader makes of the rest in each mode.
abbrev pub turn : Sort → ℕ → (Mode → List (List Text)) → Mode → List (List Text)
turn quotes c rest starts = rest quoted
turn quotes c rest bare = push c (rest bare)
turn quotes c rest quoted = rest closing
turn quotes c rest closing = push c (rest quoted)
turn quotes c rest returns = rest quoted
turn commas c rest quoted = push c (rest quoted)
turn commas c rest _ = next_cell (rest starts)
turn ends c rest quoted = push c (rest quoted)
turn ends c rest _ = rest returns
turn feeds c rest quoted = push c (rest quoted)
turn feeds c rest _ = next_row (rest starts)
turn plain c rest quoted = push c (rest quoted)
turn plain c rest _ = push c (rest bare)

unfoldable pub read : Text → Mode → List (List Text)
read [] mode = ([] ∷ []) ∷ []
read (c ∷ t) mode = turn (sort_of c) c (read t) mode
