-- ===== src/Kanban/Board/View.antt =====
-- What a board shows: the cards of each column as a list. A move takes a card out of one list and
-- puts it into another.
use kanzan.Prelude.{
  ℕ, zero, suc, ◌+◌, ◌-◌, ◌≤◌, ◌<◌, ◌≡◌, Option, none, some, List, [], ◌∷◌, ◌==◌, ltb,
  if◌then◌else◌, length, arith,
}

-- The card at a place of a list.
unfoldable pub item : List ℕ → ℕ → Option ℕ
item [] k = none
item (x ∷ xs) zero = some x
item (x ∷ xs) (suc k) = item xs k

pub take_out : ℕ → List ℕ → List ℕ
take_out i [] = []
take_out zero (x ∷ xs) = xs
take_out (suc i) (x ∷ xs) = x ∷ take_out i xs

pub put_in : ℕ → ℕ → List ℕ → List ℕ
put_in zero y xs = y ∷ xs
put_in (suc j) y [] = y ∷ []
put_in (suc j) y (x ∷ xs) = x ∷ put_in j y xs

-- A board: a list of cards for each column.
abbrev pub Board : Type 0
Board = ℕ → List ℕ

-- The card `pk` moves from a place of a column to a place of a column, which may be the same.
unfoldable pub relocate : ℕ → ℕ → ℕ → ℕ → ℕ → Board → Board
relocate pk source i target j board k =
    let rest = if source == k then take_out i (board k) else board k in
    if target == k then put_in j pk rest else rest

pub item-take_out :
    (i : ℕ) (xs : List ℕ) (k : ℕ)
    → item (take_out i xs) k ≡ (if ltb k i then item xs k else item xs (suc k))
unfolding item take_out
item-take_out i [] k = ground arith
item-take_out zero (x ∷ xs) k = ground arith
item-take_out (suc i) (x ∷ xs) zero = ground arith
item-take_out (suc i) (x ∷ xs) (suc k) = ground (arith, item-take_out i xs k)

pub item-put_in :
    (j y : ℕ) (xs : List ℕ) (k : ℕ)
    → j ≤ length xs
    → item (put_in j y xs) k
      ≡ (if ltb k j then item xs k else if k == j then some y else item xs (k - 1))
unfolding item put_in
item-put_in zero y xs zero h = ground arith
item-put_in zero y xs (suc k) h = ground arith
item-put_in (suc j) y [] k h = ground arith
item-put_in (suc j) y (x ∷ xs) zero h = ground arith
item-put_in (suc j) y (x ∷ xs) (suc zero) h = ground (arith, item-put_in j y xs 0)
item-put_in (suc j) y (x ∷ xs) (suc (suc k)) h = ground (arith, item-put_in j y xs (suc k))

pub item-lt : (xs : List ℕ) (i y : ℕ) → item xs i ≡ some y → i < length xs
unfolding item
item-lt [] i y h = ground arith
item-lt (x ∷ xs) zero y h = ground arith
item-lt (x ∷ xs) (suc i) y h = ground (arith, item-lt xs i y)

pub length-take_out : (i : ℕ) (xs : List ℕ) → i < length xs → length (take_out i xs) + 1 ≡ length xs
unfolding take_out
length-take_out i [] h = ground arith
length-take_out zero (x ∷ xs) h = ground arith
length-take_out (suc i) (x ∷ xs) h = ground (arith, length-take_out i xs)

pub length-put_in : (j y : ℕ) (xs : List ℕ) → length (put_in j y xs) ≡ length xs + 1
unfolding put_in
length-put_in zero y xs = ground arith
length-put_in (suc j) y [] = ground arith
length-put_in (suc j) y (x ∷ xs) = ground (arith, length-put_in j y xs)
