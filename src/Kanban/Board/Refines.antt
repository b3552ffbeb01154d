-- ===== src/Kanban/Board/Refines.antt =====
-- `move_card` carries out the move of the card on the lists that the board shows
-- (apps/kanban/services.py).
use kanzan.Prelude.{
  ℕ, ◌+◌, ◌≤◌, ◌<◌, ◌≡◌, inl, inr, refl, sym, ap, ◌∙◌, Bool, true, false, ◌&&◌, not, Option, List,
  [], ◌∷◌, ◌==◌, ltb, if◌then◌else◌, map, length, arith, Bool-cases, All,
}
use kanzan.Kanban.Board.Synced.{IsLeading, followed-moved}
use kanzan.Kanban.Board.{
  Boards, Card, Column, Content, count, is_full, reorder_within_column, move_across_columns, moved,
  move_card,
}
use kanzan.Kanban.Board.Orders.{
  Apart, Known, IsDistinct, up, down, across, rows, Known-member, Known-Stands, Apart-member,
  Apart-sym, update_order_twice, place-update_twice,
}
use kanzan.Kanban.Board.View.{Board, take_out, relocate, item-lt, length-take_out, length-put_in}
use kanzan.Kanban.Board.Within.{Fits, up-Fits, down-Fits, stay-Fits}
use kanzan.Kanban.Board.Across.{across-Fits}
use mathlib.Core.List.{Memᴰ}
use mathlib.Core.Path.{subst}

-- The board shows the rows: each card stands in its place, and a column has no other items.
abbrev pub Shows : Board → List Card → Type 0
Shows board cards = All (Fits board) cards × ((k : ℕ) → count k cards ≡ length (board k))

-- One for a card that stands in the column.
abbrev one : Bool → ℕ
one true = 1
one false = 0

module _ (card : Card) (target : ℕ) (h : Card → Card)
    (others : (c : Card) → Apart card c → (h c).column ≡ c.column)
    (own : (h card).column ≡ target) where
  count-others : (k : ℕ) (cs : List Card) → All (Apart card) cs → count k (map h cs) ≡ count k cs
  count-others k [] aps = refl
  count-others k (c ∷ cs) (a, aps) = ground (arith, others c a, count-others k cs aps)

  count-map :
      (k : ℕ) (cs : List Card)
      → Memᴰ card cs
      → IsDistinct cs
      → count k (map h cs) + one (card.column == k) ≡ count k cs + one (target == k)
  count-map k [] m ds = elim m [ ]
  count-map k (c ∷ cs) (Memᴰ.head e) (aps, ds) =
      let same = count-others k cs (rw e aps) in
      let at : (h c).column ≡ target = ap (λ x. (h x).column) (sym e) ∙ own in
      let was : c.column ≡ card.column = ap (λ x. x.column) (sym e) in ground arith
  count-map k (c ∷ cs) (Memᴰ.tail m) (aps, ds) =
      let rest = count-map k cs m ds in
      let kept = others c (Apart-sym c card (Apart-member card c cs m aps)) in ground arith

length-relocate :
    (pk source i target j k : ℕ) (board : Board)
    → i < length (board source)
    → length (relocate pk source i target j board k) + one (source == k)
      ≡ length (board k) + one (target == k)
unfolding relocate
length-relocate pk source i target j k board h = elim (Bool-cases (source == k)) [
  | inl from ↦
      let at : source ≡ k = ground arith in
      let lt : i < length (board k) = rw⁻¹ at h in
      ground (
        arith,
        length-take_out i (board k),
        length-put_in j pk (board k),
        length-put_in j pk (take_out i (board k)),
      )
  | inr out ↦ ground (arith, length-put_in j pk (board k))
]

module _ (card : Card) (target position : ℕ) (board : Board) (h : Card → Card)
    (others : (c : Card) → Apart card c → (h c).column ≡ c.column) (own : (h card).column ≡ target)
    (fits : (c : Card)
      → Known card c
      → Fits board c
      → Fits (relocate card.pk card.column card.order target position board) (h c)) where
  All-Fits :
      (cs : List Card)
      → All (Known card) cs
      → All (Fits board) cs
      → All (Fits (relocate card.pk card.column card.order target position board)) (map h cs)
  All-Fits [] ks fs = tt
  All-Fits (c ∷ cs) (k, ks) (f, fs) = (fits c k f, All-Fits cs ks fs)

  Fits-member : (cs : List Card) → Memᴰ card cs → All (Fits board) cs → Fits board card
  Fits-member [] m fs = elim m [ ]
  Fits-member (c ∷ cs) (Memᴰ.head e) (f, fs) = rw e f
  Fits-member (c ∷ cs) (Memᴰ.tail m) (f, fs) = Fits-member cs m fs

  map-Shows :
      (cs : List Card)
      → Memᴰ card cs
      → IsDistinct cs
      → Shows board cs
      → Shows (relocate card.pk card.column card.order target position board) (map h cs)
  map-Shows cs m ds (fs, counts) = (
    All-Fits cs (Known-member card cs m ds) fs,
    λ k. omega (
      arith,
      count-map card target h others own k cs m ds,
      counts k,
      length-relocate card.pk card.column card.order target position k board
          (item-lt (board card.column) card.order card.pk (Fits-member cs m fs)),
    ),
  )

map-same : (cs : List Card) → map (λ c. c) cs ≡ cs
map-same [] = refl
map-same (c ∷ cs) = ap (λ l. c ∷ l) (map-same cs)

module _ (card : Card) (position : ℕ) (board : Board) (cs : List Card) (m : Memᴰ card cs)
    (ds : IsDistinct cs) (shown : Shows board cs) where
  reorder-Shows :
      position ≤ length (take_out card.order (board card.column))
      → Shows
          (relocate card.pk card.column card.order card.column position board)
          (reorder_within_column card position cs)
  unfolding reorder_within_column
  reorder-Shows room = elim (Bool-cases (card.order == position)) [
    | inl same ↦ rw same (
        subst (Shows _) (map-same cs) (
          map-Shows card card.column position board (λ c. c) (λ c a. refl) refl
            (stay-Fits card position board room same) cs m ds shown))
    | inr moves ↦ elim (Bool-cases (ltb position card.order)) [
      | inl above ↦
          rw (moves, above, update_order_twice)
            (map-Shows card card.column position board (up card card.column position)
              (λ c a. ground arith) (ground arith) (up-Fits card position board room above) cs m ds
              shown)
      | inr below ↦
          rw (moves, below, update_order_twice)
            (map-Shows card card.column position board (down card card.column position)
              (λ c a. ground arith) (ground arith) (down-Fits card position board room moves below)
              cs m ds shown)
    ]
  ]

  across-Shows :
      (target : ℕ)
      → (card.column == target) ≡ false
      → position ≤ length (board target)
      → Shows
          (relocate card.pk card.column card.order target position board)
          (move_across_columns card card.column target position cs)
  unfolding move_across_columns
  across-Shows target moves room = rw place-update_twice (
      map-Shows card target position board (across card target position) (λ c a. ground arith)
        (ground arith) (across-Fits card target position board moves room) cs m ds shown)

-- The places that a column has for a card: those of the other cards, and the end.
abbrev pub places : Board → Card → ℕ → ℕ
places board card target =
    if card.column == target
    then length (take_out card.order (board card.column))
    else length (board target)

moved-Shows :
    (card : Card) (target position : ℕ) (board : Board) (cs : List Card)
    → Memᴰ card cs
    → IsDistinct cs
    → Shows board cs
    → position ≤ places board card target
    → Shows
        (relocate card.pk card.column card.order target position board)
        (moved card target position cs)
unfolding moved
moved-Shows card target position board cs m ds shown room =
    elim (Bool-cases (card.column == target)) [
      | inl same ↦
          let at : card.column ≡ target = ground arith in
          let room' : position ≤ length (take_out card.order (board card.column)) = ground arith in
          rw same (
            subst
              (λ t.
                Shows (relocate card.pk card.column card.order t position board)
                  (reorder_within_column card position cs))
              at (reorder-Shows card position board cs m ds shown room'))
      | inr moves ↦
          rw moves (across-Shows card position board cs m ds shown target moves (ground arith))
    ]

-- Where a board shows the rows, no two cards share a place, and the position is a place of the
-- target column, a call of `move_card` that is not refused leaves rows that the board shows after
-- the card is taken out of its place and put into the position, all other columns being as before. The
-- card must be the only one of its ticket, and the target the first column of its board with the
-- target's status, since the signal of a status that is written back moves other cards.
pub move_card-Shows :
    (boards : Boards) (card : Card) (target : Column) (position : ℕ) (content : Content)
    (actor : Option ℕ)
    → (now : ℕ) (cards : List Card) (board : Board) → Memᴰ card cards
    → IsDistinct cards
    → IsLeading boards card target
    → Shows board cards
    → position ≤ places board card target.id
    → (not (card.column == target.id) && is_full target.wip_limit (count target.id cards)) ≡ false
    → Shows
        (relocate card.pk card.column card.order target.id position board)
        (rows cards (move_card boards card target position content actor now cards))
unfolding move_card
move_card-Shows boards card target position content actor now cards board m ds leads shown room
      free =
    let saved =
      followed-moved boards card target position content cards leads
        (Known-Stands card cards (Known-member card cards m ds)) in
    rw (free, saved) (moved-Shows card target.id position board cards m ds shown room)
