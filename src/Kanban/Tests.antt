-- ===== src/Kanban/Tests.antt =====
-- Runs of the board's model at concrete cards.
use kanzan.Prelude.{
  if◌then◌else◌, ◌==◌, length, ℕ, ◌≤◌, ◌≡◌, ◌⊎◌, refl, false, none, some, List, [], ◌∷◌, arith,
}
use kanzan.Kanban.Board.{Card, Column, Content, ticket, Boards, count, move_card, wip_limit_reached}
use kanzan.Tickets.Samples.{progress, fresh}
use kanzan.Kanban.Board.Synced.{IsLeading}
use kanzan.Kanban.Board.Orders.{IsDistinct, rows, move_card-IsDistinct}
use kanzan.Kanban.Board.Limit.{move_card-wip_limit}
use kanzan.Kanban.Board.View.{Board, item, relocate}
use kanzan.Kanban.Board.Refines.{Shows, move_card-Shows}
use mathlib.Core.List.{Memᴰ}

abbrev card : ℕ → ℕ → ℕ → Card
card pk column order = record { pk = pk; column = column; order = order }

abbrev board : List Card
board = card 1 10 0 ∷ card 2 10 1 ∷ card 3 20 0 ∷ []

abbrev doing : Column
doing = record { id = 20; wip_limit = some 2; status = some progress; is_personal = false }

-- The ticket is open, so that the move writes its status.
abbrev moved_ticket : Content
moved_ticket = ticket fresh

abbrev boards : Boards
boards = record {
  columns =
      record { id = 10; board = 1; status = some 1 }
      ∷ record { id = 20; board = 1; status = some 2 }
      ∷ [];
  cards = 1 ∷ [];
}

leading : IsLeading boards (card 1 10 0) doing
leading = (refl, λ s e. ground (arith, e))

board-IsDistinct : IsDistinct board
board-IsDistinct = ground arith

move_card-IsDistinct_example :
    IsDistinct (rows board (move_card boards (card 1 10 0) doing 0 moved_ticket none 1000 board))
move_card-IsDistinct_example =
    move_card-IsDistinct boards (card 1 10 0) doing 0 moved_ticket none 1000 board (Memᴰ.head refl)
      board-IsDistinct leading

move_card-wip_limit_example :
    ((count 20 (rows board (move_card boards (card 1 10 0) doing 0 moved_ticket none 1000 board))
        ≡ 2)
      × (2 ≤ 2))
    ⊎ ((move_card boards (card 1 10 0) doing 0 moved_ticket none 1000 board ≡ wip_limit_reached)
        × (2 ≤ 1))
move_card-wip_limit_example =
    move_card-wip_limit boards (card 1 10 0) doing 0 moved_ticket none 1000 board 2 (Memᴰ.head refl)
      board-IsDistinct leading refl refl (ground arith)

abbrev shown : Board
shown k = if k == 10 then 1 ∷ 2 ∷ [] else if k == 20 then 3 ∷ [] else []

board-counts : (k : ℕ) → count k board ≡ length (shown k)
board-counts k = ground arith

board-Shows : Shows shown board
unfolding item
board-Shows = ((refl, (refl, (refl, tt))), board-counts)

move_card-Shows_example :
    Shows
      (relocate 1 10 0 20 1 shown)
      (rows board (move_card boards (card 1 10 0) doing 1 moved_ticket none 1000 board))
move_card-Shows_example =
    move_card-Shows boards (card 1 10 0) doing 1 moved_ticket none 1000 board shown (Memᴰ.head refl)
      board-IsDistinct leading board-Shows (ground arith) refl
