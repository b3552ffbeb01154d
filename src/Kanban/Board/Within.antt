-- ===== src/Kanban/Board/Within.antt =====
-- A card that moves within its column: where the rows stand before and after
-- (apps/kanban/services.py).
use kanzan.Prelude.{
  ℕ, suc, ◌-◌, ◌≤◌, ◌≡◌, inl, inr, refl, sym, ap, ◌∙◌, true, false, Option, some, List, ◌==◌, ltb,
  if◌then◌else◌, length, arith, Bool-cases,
}
use kanzan.Kanban.Board.{Card}
use kanzan.Kanban.Board.Orders.{Known, up, down}
use kanzan.Kanban.Board.View.{Board, item, take_out, put_in, relocate, item-take_out, item-put_in}

-- The card stands where its row says.
abbrev pub Fits : Board → Card → Type 0
Fits board c = item (board c.column) c.order ≡ some c.pk

abbrev pub shifted : ℕ → List ℕ → ℕ → Option ℕ
shifted i xs k = if ltb k i then item xs k else item xs (suc k)

item-shifted :
    (i j y : ℕ) (xs : List ℕ) (k : ℕ)
    → j ≤ length (take_out i xs)
    → item (put_in j y (take_out i xs)) k
      ≡ (if ltb k j then shifted i xs k else if k == j then some y else shifted i xs (k - 1))
item-shifted i j y xs k h =
    ground
      (arith, item-put_in j y (take_out i xs) k, item-take_out i xs k, item-take_out i xs (k - 1))

module _ (card : Card) (target position : ℕ) (board : Board) where
  abbrev after : Board
  after = relocate card.pk card.column card.order target position board

  after-same :
      card.column ≡ target
      → after card.column ≡ put_in position card.pk (take_out card.order (board card.column))
  unfolding relocate
  after-same same = ground arith

module _ (card : Card) (position : ℕ) (board : Board)
    (room : position ≤ length (take_out card.order (board card.column))) where
  abbrev pub within : Board
  within = relocate card.pk card.column card.order card.column position board

  item-within :
      (k : ℕ)
      → item (within card.column) k ≡ (
          if ltb k position
          then shifted card.order (board card.column) k
          else if k == position
          then some card.pk
          else shifted card.order (board card.column) (k - 1))
  item-within k =
      rw (after-same card card.column position board refl)
        (item-shifted card.order position card.pk (board card.column) k room)

  pub within-other : (k : ℕ) → (card.column == k) ≡ false → within k ≡ board k
  unfolding relocate
  within-other k h = ground arith

  -- The place that the item at a place had.
  abbrev origin : ℕ → ℕ
  origin k =
      if ltb k position
      then if ltb k card.order then k else suc k
      else if ltb (k - 1) card.order
      then k - 1
      else suc (k - 1)

  item-own : item (within card.column) position ≡ some card.pk
  item-own = item-within position ∙ ground arith

  item-origin :
      (k : ℕ)
      → (k == position) ≡ false
      → item (within card.column) k ≡ item (board card.column) (origin k)
  item-origin k h = item-within k ∙ ground arith

  -- Three kinds of rows after a move: the card itself, a row of its column, and any other row.
  Fits-own :
      (d : Card) → d.pk ≡ card.pk → d.column ≡ card.column → d.order ≡ position → Fits within d
  Fits-own d pk column order =
      ap (λ k. item (within k) d.order) column
      ∙ ap (item (within card.column)) order
      ∙ item-own
      ∙ ap some (sym pk)

  Fits-column :
      (c d : Card)
      → Fits board c
      → c.column ≡ card.column
      → d.pk ≡ c.pk
      → d.column ≡ card.column
      → (d.order == position) ≡ false
      → origin d.order ≡ c.order
      → Fits within d
  Fits-column c d f at pk column other from =
      ap (λ k. item (within k) d.order) column
      ∙ item-origin d.order other
      ∙ ap (item (board card.column)) from
      ∙ ap (λ k. item (board k) c.order) (sym at)
      ∙ f
      ∙ ap some (sym pk)

  Fits-elsewhere :
      (c d : Card) → Fits board c → (card.column == c.column) ≡ false → d ≡ c → Fits within d
  Fits-elsewhere c d f there same =
      rw same (ap (λ xs. item xs c.order) (within-other c.column there) ∙ f)

  pub up-Fits :
      ltb position card.order ≡ true
      → (c : Card) → Known card c
      → Fits board c
      → Fits within (up card card.column position c)
  up-Fits h c (inl e) f = Fits-own _ (ground arith) (ground arith) (ground arith)
  up-Fits h c (inr a) f = elim (Bool-cases (card.column == c.column)) [
    | inl here ↦
        Fits-column c _ f (ground arith) (ground arith) (ground arith) (ground arith) (ground arith)
    | inr there ↦ Fits-elsewhere c _ f there (ground arith)
  ]

  pub down-Fits :
      (card.order == position) ≡ false
      → ltb position card.order ≡ false
      → (c : Card) → Known card c
      → Fits board c
      → Fits within (down card card.column position c)
  down-Fits o h c (inl e) f = Fits-own _ (ground arith) (ground arith) (ground arith)
  down-Fits o h c (inr a) f = elim (Bool-cases (card.column == c.column)) [
    | inl here ↦
        Fits-column c _ f (ground arith) (ground arith) (ground arith) (ground arith) (ground arith)
    | inr there ↦ Fits-elsewhere c _ f there (ground arith)
  ]

  -- With no move the board shows the same.
  pub stay-Fits :
      (card.order == position) ≡ true → (c : Card) → Known card c → Fits board c → Fits within c
  stay-Fits o c (inl e) f = Fits-own c (ground arith) (ground arith) (ground arith)
  stay-Fits o c (inr a) f = elim (Bool-cases (card.column == c.column)) [
    | inl here ↦
        Fits-column c c f (ground arith) (ground arith) (ground arith) (ground arith) (ground arith)
    | inr there ↦ Fits-elsewhere c c f there (ground arith)
  ]
