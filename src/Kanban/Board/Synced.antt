-- ===== src/Kanban/Board/Synced.antt =====
-- The signal that follows a status which `move_card` writes back (apps/tickets/signals.py).
use kanzan.Prelude.{
  ℕ, ◌≡◌, ◌⊎◌, inl, inr, refl, sym, Bool, true, none, some, List, [], ◌∷◌, ◌==◌, keep, first, arith,
  ltb, Bool-cases, Option-cases, All,
}
use mathlib.Core.Path.{subst}
use kanzan.Tickets.Rows.{Status}
use kanzan.Kanban.Board.{
  Card, Column, Content, no_status, ticket, other, Boards, BoardColumn, column_for, sync_row,
  sync_kanban_card, followed, update_order, place, reorder_within_column, move_across_columns,
  moved,
}

-- The rows with the key stand in the column.
abbrev pub Stands : ℕ → ℕ → List Card → Type 0
Stands pk column = All (λ c. (c.pk == pk) ≡ true → c.column ≡ column)

update_order-Stands :
    (pk column : ℕ) (p : Card → Bool) (f : ℕ → ℕ) (cards : List Card)
    → Stands pk column cards
    → Stands pk column (update_order p f cards)
unfolding update_order
update_order-Stands pk column p f [] h = tt
update_order-Stands pk column p f (c ∷ cards) h = elim (Bool-cases (p c)) [
  | inl e ↦ rw e (h.0, update_order-Stands pk column p f cards h.1)
  | inr e ↦ rw e (h.0, update_order-Stands pk column p f cards h.1)
]

place-Stands :
    (pk column order : ℕ) (cards : List Card) → Stands pk column (place pk column order cards)
unfolding place
place-Stands pk column order [] = tt
place-Stands pk column order (c ∷ cards) = elim (Bool-cases (c.pk == pk)) [
  | inl e ↦ rw e (λ own. refl, place-Stands pk column order cards)
  | inr e ↦ rw e (λ own. absurd (ground (arith, own, e)), place-Stands pk column order cards)
]

reorder_within_column-Stands :
    (card : Card) (position : ℕ) (cards : List Card)
    → Stands card.pk card.column cards
    → Stands card.pk card.column (reorder_within_column card position cards)
unfolding reorder_within_column
reorder_within_column-Stands card position cards h = elim (Bool-cases (card.order == position)) [
  | inl same ↦ rw same h
  | inr new ↦ elim (Bool-cases (ltb position card.order)) [
    | inl up ↦ rw (new, up) (update_order-Stands _ _ _ _ _ (update_order-Stands _ _ _ _ cards h))
    | inr down ↦
        rw (new, down) (update_order-Stands _ _ _ _ _ (update_order-Stands _ _ _ _ cards h))
  ]
]

moved-Stands :
    (card : Card) (target position : ℕ) (cards : List Card)
    → Stands card.pk card.column cards
    → Stands card.pk target (moved card target position cards)
unfolding moved move_across_columns
moved-Stands card target position cards h = elim (Bool-cases (card.column == target)) [
  | inl same ↦
      let at : card.column ≡ target = ground arith in
      rw same (
        subst (λ t. Stands card.pk t (reorder_within_column card position cards)) at
          (reorder_within_column-Stands card position cards h))
  | inr moves ↦ rw moves (place-Stands card.pk target position _)
]

first_row :
    (pk column : ℕ) (cards : List Card)
    → Stands pk column cards
    → (first (keep (λ (c : Card). c.pk == pk) cards) ≡ none)
      ⊎ ((c : Card) × (first (keep (λ (c : Card). c.pk == pk) cards) ≡ some c)
          × (c.column ≡ column))
first_row pk column [] h = inl refl
first_row pk column (c ∷ cards) h = elim (Bool-cases (c.pk == pk)) [
  | inl e ↦ inr (c, rw e refl, h.0 e)
  | inr e ↦ rw e (first_row pk column cards h.1)
]

-- The card is the only one of its ticket, and its target is the first column of its board that has
-- the target's status.
abbrev pub IsLeading : Boards → Card → Column → Type 0
IsLeading boards card target =
    (boards.cards ≡ card.pk ∷ [])
    × ((s : Status)
        → target.status ≡ some s
        → column_for boards.columns target.id s.pk ≡ some target.id)

sync_row_stays :
    (columns : List BoardColumn) (c : Card) (column status : ℕ) (cards : List Card)
    → column_for columns c.column status ≡ some column
    → c.column ≡ column
    → sync_row columns status (some c) cards ≡ cards
sync_row_stays columns c column status cards own at =
    let same : (column == c.column) ≡ true = ground (arith, at) in rw (sync_row, own, same) refl

sync_kanban_card-leading :
    (columns : List BoardColumn) (pk column status : ℕ) (cards : List Card)
    → Stands pk column cards
    → column_for columns column status ≡ some column
    → sync_kanban_card columns status (pk ∷ []) cards ≡ cards
unfolding sync_kanban_card
sync_kanban_card-leading columns pk column status cards h leads =
    elim (first_row pk column cards h) [
      | inl gone ↦ rw gone refl
      | inr (c, found, at) ↦
          let own : column_for columns c.column status ≡ some column =
            subst (λ k. column_for columns k status ≡ some column) (sym at) leads in
          rw found (sync_row_stays columns c column status cards own at)
    ]

-- The signal then leaves the rows that the move saves.
pub followed-moved :
    (boards : Boards) (card : Card) (target : Column) (position : ℕ) (content : Content)
    (cards : List Card)
    → IsLeading boards card target
    → Stands card.pk card.column cards
    → followed boards target content (moved card target.id position cards)
      ≡ moved card target.id position cards
followed-moved boards card target position no_status cards leads h = refl
followed-moved boards card target position (other old) cards leads h = refl
followed-moved boards card target position (ticket t) cards (alone, leads) h =
    elim (Option-cases target.status) [
      | inl e ↦ rw e refl
      | inr (s, e) ↦
          let quiet =
            sync_kanban_card-leading boards.columns card.pk target.id s.pk
              (moved card target.id position cards) (moved-Stands card target.id position cards h)
              (leads s e) in
          ground (arith, e, alone, quiet)
    ]
