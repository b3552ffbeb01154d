-- ===== src/Tickets/Macro/Tests.antt =====
-- A macro on a concrete ticket.
use kanzan.Prelude.{false, none, some, [], ◌∷◌}
use kanzan.Tickets.Rows.{Priority}
use kanzan.Tickets.Samples.{statuses, fresh, fresh-IsConsistent}
use kanzan.Tickets.Bulk.{Tagged}
use kanzan.Tickets.Macro.{Macro, MacroAction, apply_macro}
use kanzan.Tickets.Macro.Kept.{Commits, apply_macro-Commits}

abbrev row : Tagged
row = record {
  ticket = fresh;
  number = 12;
  tags = [];
  is_deleted = false;
  deleted_at = none;
  deleted_by = none;
}

abbrev closing : Macro
closing = record {
  tenant = 7;
  actions =
      MacroAction.set_priority (some Priority.high)
      ∷ MacroAction.add_tag (some "done")
      ∷ MacroAction.set_status (some "closed")
      ∷ [];
}

apply_macro-Commits_example : Commits (apply_macro statuses 4 500 (some 77) 7 closing row)
apply_macro-Commits_example =
    apply_macro-Commits statuses 4 500 (some 77) 7 closing row fresh-IsConsistent
