-- ===== src/Store/Timeline.antt =====
-- The events of a run in the store, by their seq.
use aiclibridge.Prelude.{
  ℕ, suc, ◌<◌, ◌≤◌, ◌≡◌, refl, ap, Text, List, [], ◌∷◌, ◌++◌, text_eq_refl, any, arith, false, All,
  ◌∙◌,
}
use aiclibridge.Store.{EventRow, rows_of, sort_rows, insert_row, is_event}

-- Every row is before `n`.
abbrev pub Below : ℕ → List EventRow → Type 0
Below n rows = All (λ (r : EventRow). r.seq < n) rows

-- The rows are in increasing order of seq, and below `n`.
abbrev pub Ascends : ℕ → List EventRow → Type 0
Ascends lo [] = Unit
Ascends lo (r ∷ rows) = (lo ≤ r.seq) × Ascends (suc r.seq) rows

insert_row-head :
    (e : EventRow) (rows : List EventRow) → Ascends (suc e.seq) rows → insert_row e rows ≡ e ∷ rows
unfolding insert_row
insert_row-head e [] h = refl
insert_row-head e (r ∷ rows) h = ground arith

pub sort_rows-Ascends : (lo : ℕ) (rows : List EventRow) → Ascends lo rows → sort_rows rows ≡ rows
unfolding sort_rows
sort_rows-Ascends lo [] h = refl
sort_rows-Ascends lo (r ∷ rows) (p, h) =
    ap (insert_row r) (sort_rows-Ascends (suc r.seq) rows h) ∙ insert_row-head r rows h

pub Ascends-append :
    (lo : ℕ) (rows : List EventRow) (e : EventRow)
    → Ascends lo rows
    → Below e.seq rows
    → lo ≤ e.seq
    → Ascends lo (rows ++ e ∷ [])
Ascends-append lo [] e h b p = (p, tt)
Ascends-append lo (r ∷ rows) e (q, h) (b, bs) p = (q, Ascends-append (suc r.seq) rows e h bs b)

pub rows_of-append :
    (id : Text) (es : List (Text × EventRow)) (r : EventRow)
    → rows_of id (es ++ (id, r) ∷ []) ≡ rows_of id es ++ r ∷ []
unfolding rows_of
rows_of-append id [] r = ground (arith, text_eq_refl id)
rows_of-append id ((j, q) ∷ es) r = ground (arith, rows_of-append id es r)

pub no_event_of_Below :
    (id : Text) (n : ℕ) (es : List (Text × EventRow))
    → Below n (rows_of id es)
    → any (is_event id n) es ≡ false
unfolding rows_of
no_event_of_Below id n [] h = refl
no_event_of_Below id n ((j, q) ∷ es) h = ground (arith, no_event_of_Below id n es)
