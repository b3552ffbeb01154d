-- ===== src/Kanban/Board.antt =====
-- apps/kanban/services.py: `move_card` and its helpers, over the rows of `CardPosition`. A query
-- set's `update` is a pass over the rows. A ticket whose status is written back has its cards moved by
-- a signal (apps/tickets/signals.py).
pub mod Orders
pub mod Synced
pub mod Limit
pub mod View
pub mod Within
pub mod Across
pub mod Refines
use kanzan.Prelude.{
  ℕ, ◌+◌, ◌-◌, Bool, true, false, ◌&&◌, not, Option, none, some, List, [], ◌∷◌, ◌==◌, ltb, leb,
  if◌then◌else◌, length, keep, map, first,
}
use kanzan.Tickets.Rows.{Status, Ticket, Effect}
use kanzan.Tickets.Status.{change_ticket_status}

pub record Card : Type 0 where
  pub pk : ℕ
  pub column : ℕ
  pub order : ℕ

pub record Column : Type 0 where
  pub id : ℕ
  pub wip_limit : Option ℕ
  pub status : Option Status
  pub is_personal : Bool

-- `content_object` of a card: a ticket, another object with a status, or nothing with one.
pub data Content : Type 0 where
  no_status : Content
  ticket : Ticket → Content
  other : Option Status → Content

pub data Result : Type 0 where
  ok : List Card → Content → List Effect → Result
  wip_limit_reached : Result

-- `column.cards.filter(...).update(order=...)`
unfoldable pub update_order : (Card → Bool) → (ℕ → ℕ) → List Card → List Card
update_order p f cards = map (λ c. if p c then record c { order = f c.order } else c) cards

-- `card_position.save(update_fields=["column", "order"])`
unfoldable pub place : ℕ → ℕ → ℕ → List Card → List Card
place pk column order cards =
    map (λ c. if c.pk == pk then record c { column = column; order = order } else c) cards

-- `card_position.save(update_fields=["order"])`
abbrev pub place_order : ℕ → ℕ → List Card → List Card
place_order pk order cards = update_order (λ c. c.pk == pk) (λ n. order) cards

-- `_reorder_within_column`
pub reorder_within_column : Card → ℕ → List Card → List Card
reorder_within_column card new_position cards =
    if card.order == new_position
    then cards
    else if ltb new_position card.order
    then place_order card.pk new_position (
        update_order
          (λ c. (c.column == card.column) && (leb new_position c.order && ltb c.order card.order))
          (λ n. n + 1) cards)
    else place_order card.pk new_position (
        update_order
          (λ c. (c.column == card.column) && (ltb card.order c.order && leb c.order new_position))
          (λ n. n - 1) cards)

-- `_move_across_columns`
pub move_across_columns : Card → ℕ → ℕ → ℕ → List Card → List Card
move_across_columns card source target position cards = place card.pk target position (
    update_order (λ c. (c.column == target) && leb position c.order) (λ n. n + 1)
      (update_order (λ c. (c.column == source) && ltb card.order c.order) (λ n. n - 1) cards))

-- `column.cards.count()`
abbrev pub count : ℕ → List Card → ℕ
count column cards = length (keep (λ c. c.column == column) cards)

-- `target_column.wip_limit` as a test, and the test of the count; a limit of 0 is no limit
abbrev pub is_full : Option ℕ → ℕ → Bool
is_full none n = false
is_full (some limit) n = if limit == 0 then false else leb limit n

-- `content_obj.status_id != target_column.status_id`
abbrev pub has_status : Option Status → Status → Bool
has_status none s = false
has_status (some old) s = old.pk == s.pk

-- The end of `move_card`: a board that is not personal writes the column's status back.
pub sync_status : Column → Content → Option ℕ → ℕ → Content × List Effect
sync_status target no_status actor now = (no_status, [])
sync_status target (ticket t) actor now = elim target.status [
  | none ↦ (ticket t, [])
  | some s ↦
      if target.is_personal
      then (ticket t, [])
      else if has_status t.status s
      then (ticket t, [])
      else (let r = change_ticket_status t s actor now in (ticket r.0, r.1))
]
sync_status target (other old) actor now = elim target.status [
  | none ↦ (other old, [])
  | some s ↦
      if target.is_personal
      then (other old, [])
      else if has_status old s
      then (other old, [])
      else (other (some s), [])
]

-- A row of `Column` as the signal reads it, with the key of its status.
pub record BoardColumn : Type 0 where
  pub id : ℕ
  pub board : ℕ
  pub status : Option ℕ

-- The columns of the tenant in their order, and the keys of the cards of the ticket.
pub record Boards : Type 0 where
  pub columns : List BoardColumn
  pub cards : List ℕ

abbrev pub is_mapped : ℕ → ℕ → BoardColumn → Bool
is_mapped board status c = c.board == board && elim c.status [ none ↦ false | some s ↦ s == status ]

-- `Column.objects.filter(board=…, status=…).first()`, for the board of a column
abbrev pub column_for : List BoardColumn → ℕ → ℕ → Option ℕ
column_for columns column status =
    elim (first (keep (λ (c : BoardColumn). c.id == column) columns)) [
      | none ↦ none
      | some c ↦ elim (first (keep (is_mapped c.board status) columns)) [
        | none ↦ none
        | some t ↦ some t.id
      ]
    ]

-- The body of the loop, for the row of a card.
abbrev pub sync_row : List BoardColumn → ℕ → Option Card → List Card → List Card
sync_row columns status none cards = cards
sync_row columns status (some c) cards = elim (column_for columns c.column status) [
  | none ↦ cards
  | some target ↦ if target == c.column then cards else place c.pk target (count target cards) cards
]

-- `sync_kanban_card_on_status_change`
unfoldable pub sync_kanban_card : List BoardColumn → ℕ → List ℕ → List Card → List Card
sync_kanban_card columns status [] cards = cards
sync_kanban_card columns status (pk ∷ pks) cards =
    sync_kanban_card columns status pks
      (sync_row columns status (first (keep (λ (c : Card). c.pk == pk) cards)) cards)

-- The rows after the status is written back: only a ticket has the signal.
abbrev pub followed : Boards → Column → Content → List Card → List Card
followed boards target no_status cards = cards
followed boards target (other old) cards = cards
followed boards target (ticket t) cards = elim target.status [
  | none ↦ cards
  | some s ↦
      if target.is_personal
      then cards
      else if has_status t.status s
      then cards
      else sync_kanban_card boards.columns s.pk boards.cards cards
]

-- The rows that `move_card` saves.
pub moved : Card → ℕ → ℕ → List Card → List Card
unfolding reorder_within_column move_across_columns
moved card target position cards =
    if card.column == target
    then reorder_within_column card position cards
    else move_across_columns card card.column target position cards

-- `move_card`
pub move_card : Boards → Card → Column → ℕ → Content → Option ℕ → ℕ → List Card → Result
move_card boards card target position content actor now cards =
    if not (card.column == target.id) && is_full target.wip_limit (count target.id cards)
    then wip_limit_reached
    else (let synced = sync_status target content actor now in
        ok (followed boards target content (moved card target.id position cards)) synced.0 synced.1)
