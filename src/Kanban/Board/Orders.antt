-- ===== src/Kanban/Board/Orders.antt =====
-- No two cards of a column share an order, through every move (apps/kanban/services.py).
use kanzan.Prelude.{
  ℕ, ◌+◌, ◌-◌, ◌≡◌, ◌≢◌, ◌⊎◌, inl, inr, refl, sym, ap, Bool, true, false, ◌&&◌, not, Option, List,
  [], ◌∷◌, ◌==◌, ltb, leb, if◌then◌else◌, map, arith, Bool-cases, All,
}
use kanzan.Kanban.Board.Synced.{Stands, IsLeading, followed-moved}
use kanzan.Kanban.Board.{
  Boards, Card, update_order, place, reorder_within_column, move_across_columns, moved, Column,
  Content, move_card, is_full, count, Result, ok, wip_limit_reached,
}
use mathlib.Core.List.{Memᴰ}

-- Two rows: another card, and another place when they stand in one column.
abbrev pub Apart : Card → Card → Type 0
Apart c d = (c.pk ≢ d.pk) × (c.column ≡ d.column → c.order ≢ d.order)

-- Every two rows are apart.
abbrev pub IsDistinct : List Card → Type 0
IsDistinct [] = Unit
IsDistinct (c ∷ cs) = All (Apart c) cs × IsDistinct cs

-- A row against the card that is moved: its own row, or apart from it.
abbrev pub Known : Card → Card → Type 0
Known card c = (c ≡ card) ⊎ Apart c card

-- The row after a pass, and after a move.
abbrev pub updated : (Card → Bool) → (ℕ → ℕ) → Card → Card
updated p f c = if p c then record c { order = f c.order } else c

abbrev pub placed : ℕ → ℕ → ℕ → Card → Card
placed pk column order c = if c.pk == pk then record c { column = column; order = order } else c

module _ (card : Card) (target : ℕ) (position : ℕ) where
  abbrev pub up : Card → Card
  up c =
      updated (λ c. c.pk == card.pk) (λ n. position)
        (updated
          (λ c. (c.column == card.column) && (leb position c.order && ltb c.order card.order))
          (λ n. n + 1) c)

  abbrev pub down : Card → Card
  down c =
      updated (λ c. c.pk == card.pk) (λ n. position)
        (updated
          (λ c. (c.column == card.column) && (ltb card.order c.order && leb c.order position))
          (λ n. n - 1) c)

  abbrev pub across : Card → Card
  across c = placed card.pk target position (
      updated (λ c. (c.column == target) && leb position c.order) (λ n. n + 1)
        (updated (λ c. (c.column == card.column) && ltb card.order c.order) (λ n. n - 1) c))

  up-Apart :
      ltb position card.order ≡ true
      → (c d : Card) → Known card c
      → Known card d
      → Apart c d
      → Apart (up c) (up d)
  up-Apart h c d kc kd a = ground arith

  down-Apart :
      (card.order == position) ≡ false
      → ltb position card.order ≡ false
      → (c d : Card) → Known card c
      → Known card d
      → Apart c d
      → Apart (down c) (down d)
  down-Apart o h c d kc kd a = ground arith

  across-Apart :
      (card.column == target) ≡ false
      → (c d : Card) → Known card c
      → Known card d
      → Apart c d
      → Apart (across c) (across d)
  across-Apart h c d kc kd a = ground arith

module _ (card : Card) (h : Card → Card)
    (apart : (c d : Card) → Known card c → Known card d → Apart c d → Apart (h c) (h d)) where
  All-map :
      (c : Card) (cs : List Card)
      → Known card c
      → All (Known card) cs
      → All (Apart c) cs
      → All (Apart (h c)) (map h cs)
  All-map c [] kc ks aps = tt
  All-map c (d ∷ cs) kc (kd, ks) (a, aps) = (apart c d kc kd a, All-map c cs kc ks aps)

  map-IsDistinct : (cs : List Card) → All (Known card) cs → IsDistinct cs → IsDistinct (map h cs)
  map-IsDistinct [] ks ds = tt
  map-IsDistinct (c ∷ cs) (kc, ks) (a, ds) = (All-map c cs kc ks a, map-IsDistinct cs ks ds)

pub Apart-sym : (c d : Card) → Apart c d → Apart d c
Apart-sym c d a = ground arith

All-Known : (card : Card) (cs : List Card) → All (Apart card) cs → All (Known card) cs
All-Known card [] aps = tt
All-Known card (c ∷ cs) (a, aps) = (inr (Apart-sym card c a), All-Known card cs aps)

pub Apart-member : (card c : Card) (cs : List Card) → Memᴰ card cs → All (Apart c) cs → Apart c card
Apart-member card c [] m aps = elim m [ ]
Apart-member card c (d ∷ cs) (Memᴰ.head e) (a, aps) = rw e a
Apart-member card c (d ∷ cs) (Memᴰ.tail m) (a, aps) = Apart-member card c cs m aps

pub Known-member :
    (card : Card) (cs : List Card) → Memᴰ card cs → IsDistinct cs → All (Known card) cs
Known-member card [] m ds = elim m [ ]
Known-member card (c ∷ cs) (Memᴰ.head e) (aps, ds) = (inl (sym e), All-Known card cs (rw e aps))
Known-member card (c ∷ cs) (Memᴰ.tail m) (aps, ds) =
    (inr (Apart-member card c cs m aps), Known-member card cs m ds)

-- Passes over the rows, one after another, are one pass.
pub update_order_twice :
    (p q : Card → Bool) (f g : ℕ → ℕ) (cs : List Card)
    → update_order p f (update_order q g cs) ≡ map (λ c. updated p f (updated q g c)) cs
unfolding update_order
update_order_twice p q f g [] = refl
update_order_twice p q f g (c ∷ cs) =
    ap (λ l. updated p f (updated q g c) ∷ l) (update_order_twice p q f g cs)

pub place-update_twice :
    (pk column order : ℕ) (p q : Card → Bool) (f g : ℕ → ℕ) (cs : List Card)
    → place pk column order (update_order p f (update_order q g cs))
      ≡ map (λ c. placed pk column order (updated p f (updated q g c))) cs
unfolding place update_order
place-update_twice pk column order p q f g [] = refl
place-update_twice pk column order p q f g (c ∷ cs) =
    ap (λ l. placed pk column order (updated p f (updated q g c)) ∷ l)
      (place-update_twice pk column order p q f g cs)

module _ (card : Card) (position : ℕ) (cs : List Card) (ks : All (Known card) cs)
    (ds : IsDistinct cs) where
  reorder-IsDistinct : IsDistinct (reorder_within_column card position cs)
  unfolding reorder_within_column
  reorder-IsDistinct = elim (Bool-cases (card.order == position)) [
    | inl same ↦ rw same ds
    | inr moves ↦ elim (Bool-cases (ltb position card.order)) [
      | inl above ↦
          rw (moves, above, update_order_twice)
            (map-IsDistinct card (up card position position) (up-Apart card position position above)
              cs ks ds)
      | inr below ↦
          rw (moves, below, update_order_twice)
            (map-IsDistinct card (down card position position)
              (down-Apart card position position moves below) cs ks ds)
    ]
  ]

  across-IsDistinct :
      (target : ℕ)
      → (card.column == target) ≡ false
      → IsDistinct (move_across_columns card card.column target position cs)
  unfolding move_across_columns
  across-IsDistinct target moves = rw place-update_twice (
      map-IsDistinct card (across card target position) (across-Apart card target position moves) cs
        ks ds)

moved-IsDistinct :
    (card : Card) (position : ℕ) (cs : List Card)
    → All (Known card) cs
    → IsDistinct cs
    → (target : ℕ) → IsDistinct (moved card target position cs)
unfolding moved
moved-IsDistinct card position cs ks ds target = elim (Bool-cases (card.column == target)) [
  | inl same ↦ rw same (reorder-IsDistinct card position cs ks ds)
  | inr moves ↦ rw moves (across-IsDistinct card position cs ks ds target moves)
]

-- The rows of the card stand in its column.
pub Known-Stands :
    (card : Card) (cs : List Card) → All (Known card) cs → Stands card.pk card.column cs
Known-Stands card [] ks = tt
Known-Stands card (c ∷ cs) (inl same, ks) =
    (λ own. ap (λ d. d.column) same, Known-Stands card cs ks)
Known-Stands card (c ∷ cs) (inr apart, ks) =
    (λ own. absurd (ground (arith, own, apart.0)), Known-Stands card cs ks)

-- The rows after a call: those saved, or those before a refusal.
abbrev pub rows : List Card → Result → List Card
rows cs (ok saved content effects) = saved
rows cs wip_limit_reached = cs

-- Where no two cards of a column share an order, and the card is one of the rows, `move_card`
-- leaves no two cards of a column with one order, whatever the column and the position. The card must
-- be the only one of its ticket, and the target the first column of its board with the target's status.
pub move_card-IsDistinct :
    (boards : Boards) (card : Card) (target : Column) (position : ℕ) (content : Content)
    (actor : Option ℕ)
    → (now : ℕ) (cards : List Card) → Memᴰ card cards
    → IsDistinct cards
    → IsLeading boards card target
    → IsDistinct (rows cards (move_card boards card target position content actor now cards))
unfolding move_card
move_card-IsDistinct boards card target position content actor now cards m ds leads =
    elim (Bool-cases
      (not (card.column == target.id) && is_full target.wip_limit (count target.id cards))) [
        | inl full ↦ rw full ds
        | inr free ↦
            let ks = Known-member card cards m ds in
            let saved =
              followed-moved boards card target position content cards leads
                (Known-Stands card cards ks) in
            rw (free, saved)
              (moved-IsDistinct card position cards (Known-member card cards m ds) ds target.id)
      ]
