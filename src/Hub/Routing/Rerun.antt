-- ===== src/Hub/Routing/Rerun.antt =====
-- Routing an email again (apps/inbox_hub/routing.py).
use kanzan.Prelude.{
  ℕ, ◌≡◌, refl, Bool, true, false, ◌||◌, Option, some, if◌then◌else◌, arith, Bool-cases, inl, inr,
  String,
}
use text.Mathlib.Text.{◌==◌ as str_eq}
use text.Mathlib.TextPositions.{compare_refl}
use kanzan.Hub.Store.{HubEmail, Priority, Db, find, save}
use kanzan.Hub.Store.Rows.{find-save_self}
use kanzan.Hub.Routing.{
  Decision, moves_key, moves_category, moves_priority, new_priority, moves_any, routed,
  department_id, apply_decision,
}

key_settled : (new old : Option ℕ) → moves_key new (if moves_key new old then new else old) ≡ false
key_settled new old = ground arith

same_text : (s : String) → str_eq s s ≡ true
same_text s = rw (compare_refl s) refl

category_settled :
    (new old : String) → moves_category new (if moves_category new old then new else old) ≡ false
category_settled new old = ground (arith, same_text new)

priority_settled :
    (new : Option Priority) (old : Priority)
    → moves_priority new (if moves_priority new old then new_priority new old else old) ≡ false
priority_settled new old = ground arith

none_moves :
    (a b c d : Bool)
    → a ≡ false
    → b ≡ false
    → c ≡ false
    → d ≡ false
    → (a || (b || (c || d))) ≡ false
none_moves a b c d ha hb hc hd = ground arith

settled : (d : Decision) (e : HubEmail) → moves_any d (routed d e e) ≡ false
settled d e =
    none_moves _ _ _ _ (key_settled (department_id d) e.department) (key_settled d.queue e.queue)
      (category_settled d.category e.category) (priority_settled d.priority e.priority)

module _ (e : HubEmail) (d : Decision) (db : Db) where
  still : moves_any d e ≡ false → apply_decision e d db ≡ (e, db)
  unfolding apply_decision
  still h = rw h refl

  moved_copy : moves_any d e ≡ true → (apply_decision e d db).0 ≡ routed d e e
  unfolding apply_decision
  moved_copy h = rw h refl

  moved_emails :
      moves_any d e ≡ true → (apply_decision e d db).1.emails ≡ save e.pk (routed d e) db.emails
  unfolding apply_decision
  moved_emails h =
      rw h (elim (Bool-cases (moves_key d.queue e.queue)) [ inl q ↦ rw q refl | inr q ↦ rw q refl ])

-- From an up-to-date copy, applying a decision leaves the row as the copy that is returned, with
-- its state and its assignee kept, and applying the decision again changes and logs nothing.
apply_decision_twice :
    (e : HubEmail) (d : Decision) (db : Db)
    → find e.pk db.emails ≡ some e
    → let (e', db') = apply_decision e d db in
      (find e.pk db'.emails ≡ some e')
      × (e'.state ≡ e.state)
      × (e'.assignee ≡ e.assignee)
      × (apply_decision e' d db' ≡ (e', db'))
apply_decision_twice e d db h = elim (Bool-cases (moves_any d e)) [
  | inr stays ↦ rw (still e d db stays) (h, refl, refl, still e d db stays)
  | inl moves ↦
      rw (moved_emails e d db moves, moved_copy e d db moves)
        (
          find-save_self e.pk (routed d e) e db.emails (λ r. refl) h,
          refl,
          refl,
          still (routed d e e) d _ (settled d e),
        )
]
