-- ===== src/Kanban/Board/Across.antt =====
-- A card that moves to another column: where the rows stand before and after
-- (apps/kanban/services.py).
use kanzan.Prelude.{
  ℕ, suc, ◌-◌, ◌≤◌, ◌≡◌, inl, inr, sym, ap, ◌∙◌, false, some, ◌==◌, ltb, leb, if◌then◌else◌, length,
  arith, Bool-cases,
}
use kanzan.Kanban.Board.{Card}
use kanzan.Kanban.Board.Orders.{Known, across}
use kanzan.Kanban.Board.View.{Board, item, take_out, put_in, relocate, item-take_out, item-put_in}
use kanzan.Kanban.Board.Within.{Fits, shifted}

module _ (card : Card) (target position : ℕ) (board : Board)
    (moves : (card.column == target) ≡ false) (room : position ≤ length (board target)) where
  abbrev pub beyond : Board
  beyond = relocate card.pk card.column card.order target position board

  beyond-target : beyond target ≡ put_in position card.pk (board target)
  unfolding relocate
  beyond-target = ground arith

  beyond-source : beyond card.column ≡ take_out card.order (board card.column)
  unfolding relocate
  beyond-source = ground arith

  beyond-other : (k : ℕ) → (card.column == k) ≡ false → (target == k) ≡ false → beyond k ≡ board k
  unfolding relocate
  beyond-other k h i = ground arith

  item-target :
      (k : ℕ)
      → item (beyond target) k ≡ (
          if ltb k position
          then item (board target) k
          else if k == position
          then some card.pk
          else item (board target) (k - 1))
  item-target k =
      ap (λ xs. item xs k) beyond-target ∙ item-put_in position card.pk (board target) k room

  item-source : (k : ℕ) → item (beyond card.column) k ≡ shifted card.order (board card.column) k
  item-source k =
      ap (λ xs. item xs k) beyond-source ∙ item-take_out card.order (board card.column) k

  Fits-at :
      (d : Card) (k n : ℕ) (y : ℕ)
      → d.column ≡ k
      → d.order ≡ n
      → d.pk ≡ y
      → item (beyond k) n ≡ some y
      → Fits beyond d
  Fits-at d k n y at order pk h =
      ap (λ k. item (beyond k) d.order) at ∙ ap (item (beyond k)) order ∙ h ∙ ap some (sym pk)

  pub across-Fits :
      (c : Card) → Known card c → Fits board c → Fits beyond (across card target position c)
  across-Fits c (inl e) f =
      Fits-at _ target position card.pk (ground arith) (ground arith) (ground arith)
        (item-target position ∙ ground arith)
  across-Fits c (inr a) f = elim (Bool-cases (card.column == c.column)) [
    | inl from ↦
        let at : c.column ≡ card.column = ground arith in
        let f' : item (board card.column) c.order ≡ some c.pk =
          ap (λ k. item (board k) c.order) (sym at) ∙ f in
        let n = if ltb card.order c.order then c.order - 1 else c.order in
        Fits-at _ card.column n c.pk (ground arith) (ground arith) (ground arith)
          (item-source n ∙ ground arith)
    | inr out ↦ elim (Bool-cases (target == c.column)) [
      | inl into ↦
          let at : c.column ≡ target = ground arith in
          let f' : item (board target) c.order ≡ some c.pk =
            ap (λ k. item (board k) c.order) (sym at) ∙ f in
          let n = if leb position c.order then suc c.order else c.order in
          Fits-at _ target n c.pk (ground arith) (ground arith) (ground arith)
            (item-target n ∙ ground arith)
      | inr elsewhere ↦
          Fits-at _ c.column c.order c.pk (ground arith) (ground arith) (ground arith)
            (ap (λ xs. item xs c.order) (beyond-other c.column out elsewhere) ∙ f)
    ]
  ]
