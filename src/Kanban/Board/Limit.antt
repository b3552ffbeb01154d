-- ===== src/Kanban/Board/Limit.antt =====
-- The limit of a column holds through every move into it (apps/kanban/services.py).
use kanzan.Prelude.{
  ℕ, suc, ◌≤◌, ◌≡◌, ◌≢◌, ◌⊎◌, inl, inr, refl, sym, ap, ◌∙◌, true, false, Option, some, List, [],
  ◌∷◌, ◌==◌, map, arith, Bool-cases, All,
}
use kanzan.Kanban.Board.Synced.{IsLeading, followed-moved}
use kanzan.Kanban.Board.{
  Boards, Card, Column, Content, count, is_full, moved, move_across_columns, move_card,
  wip_limit_reached, followed,
}
use kanzan.Kanban.Board.Orders.{
  Apart, IsDistinct, across, place-update_twice, rows, Apart-member, Known-member, Known-Stands,
}
use mathlib.Core.List.{Memᴰ}

Apart-pk : (card c : Card) → Apart c card → card.pk ≢ c.pk
Apart-pk card c a = ground arith

module _ (card : Card) (target : ℕ) (position : ℕ) where
  count_step :
      (c : Card) (cs ds : List Card)
      → count target cs ≡ count target ds
      → (c.column == target) ≡ ((across card target position c).column == target)
      → count target (across card target position c ∷ cs) ≡ count target (c ∷ ds)
  count_step c cs ds h e = ground arith

  other_column :
      (c : Card)
      → card.pk ≢ c.pk
      → (c.column == target) ≡ ((across card target position c).column == target)
  other_column c h = ground arith

  count_others :
      (cs : List Card)
      → All (Apart card) cs
      → count target (map (across card target position) cs) ≡ count target cs
  count_others [] aps = refl
  count_others (c ∷ cs) (a, aps) =
      count_step c (map (across card target position) cs) cs (count_others cs aps)
        (other_column c a.0)

  own_column :
      (card.column == target) ≡ false
      → (c : Card) → c ≡ card
      → ((across card target position c).column == target) ≡ true
  own_column h c e = ground arith

  count_own :
      (c : Card) (cs ds : List Card)
      → count target cs ≡ count target ds
      → (c.column == target) ≡ false
      → ((across card target position c).column == target) ≡ true
      → count target (across card target position c ∷ cs) ≡ suc (count target (c ∷ ds))
  count_own c cs ds h before after = ground arith

  count_more :
      (c : Card) (cs ds : List Card)
      → count target cs ≡ suc (count target ds)
      → (c.column == target) ≡ ((across card target position c).column == target)
      → count target (across card target position c ∷ cs) ≡ suc (count target (c ∷ ds))
  count_more c cs ds h e = ground arith

  -- One row more stands in the target's column after a move across columns.
  count-across :
      (cs : List Card)
      → (card.column == target) ≡ false
      → Memᴰ card cs
      → IsDistinct cs
      → count target (map (across card target position) cs) ≡ suc (count target cs)
  count-across [] h m ds = elim m [ ]
  count-across (c ∷ cs) h (Memᴰ.head e) (aps, ds) =
      count_own c (map (across card target position) cs) cs (count_others cs (rw e aps))
        (ap (λ x. x.column == target) (sym e) ∙ h) (own_column h c (sym e))
  count-across (c ∷ cs) h (Memᴰ.tail m) (aps, ds) =
      count_more c (map (across card target position) cs) cs (count-across cs h m ds)
        (other_column c (Apart-pk card c (Apart-member card c cs m aps)))

  room : (limit : Option ℕ) (n l : ℕ) → is_full limit n ≡ false → limit ≡ some l → l ≢ 0 → suc n ≤ l
  room limit n l free e nonzero = ground arith

no_room : (limit : Option ℕ) (n l : ℕ) → is_full limit n ≡ true → limit ≡ some l → l ≤ n
no_room limit n l full e = ground arith

count-move_across_columns :
    (card : Card) (target position : ℕ) (cs : List Card)
    → (card.column == target) ≡ false
    → Memᴰ card cs
    → IsDistinct cs
    → count target (move_across_columns card card.column target position cs) ≡ suc (count target cs)
unfolding move_across_columns
count-move_across_columns card target position cs h m ds =
    rw place-update_twice (count-across card target position cs h m ds)

-- What the signal leaves of a move across columns.
settled :
    (boards : Boards) (card : Card) (target : Column) (position : ℕ) (content : Content)
    (cards : List Card)
    → Memᴰ card cards
    → IsDistinct cards
    → IsLeading boards card target
    → (card.column == target.id) ≡ false
    → followed boards target content (move_across_columns card card.column target.id position cards)
      ≡ move_across_columns card card.column target.id position cards
unfolding moved
settled boards card target position content cards m ds leads h = rw h at (
    followed-moved boards card target position content cards leads
      (Known-Stands card cards (Known-member card cards m ds)))

-- A card of one column that `move_card` puts into another column with a limit that is not 0
-- makes the number of cards there one more and within the limit, or the call is refused, and then
-- the column has as many cards as the limit, or more. The card must be the only one of its ticket, and
-- the target the first column of its board with the target's status.
pub move_card-wip_limit :
    (boards : Boards) (card : Card) (target : Column) (position : ℕ) (content : Content)
    (actor : Option ℕ)
    → (now : ℕ) (cards : List Card) (limit : ℕ) → Memᴰ card cards
    → IsDistinct cards
    → IsLeading boards card target
    → (card.column == target.id) ≡ false
    → target.wip_limit ≡ some limit
    → limit ≢ 0
    → ((count target.id (rows cards (move_card boards card target position content actor now cards))
          ≡ suc (count target.id cards))
        × (suc (count target.id cards) ≤ limit))
      ⊎ ((move_card boards card target position content actor now cards ≡ wip_limit_reached)
          × (limit ≤ count target.id cards))
unfolding move_card moved
move_card-wip_limit boards card target position content actor now cards limit m ds leads h bound
      nonzero =
    let n = count target.id cards in
    elim (Bool-cases (is_full target.wip_limit n)) [
      | inl full ↦ inr (rw (h, full) refl, no_room target.wip_limit n limit full bound)
      | inr free ↦ inl (
        rw (h, free, settled boards card target position content cards m ds leads h)
            (count-move_across_columns card target.id position cards h m ds),
        room card target.id position target.wip_limit n limit free bound nonzero,
      )
    ]
