-- ===== src/Hub/Routing.antt =====
-- apps/inbox_hub/routing.py: the routing engine. Its functions take the test of a rule as an
-- argument, which is `rule_matches` of Hub.Routing.Conditions for an email.
pub mod Conditions
pub mod Rules
pub mod Rerun
pub mod CatchAll
mod Tests
use kanzan.Prelude.{
  ℕ, Bool, true, false, ◌&&◌, ◌||◌, not, Option, none, some, List, [], ◌∷◌, ◌==◌, if◌then◌else◌,
  String,
}
use text.Mathlib.Text.{◌==◌ as str_eq}
use kanzan.Hub.Routing.Conditions.{Text, Match, Email, rule_matches}
use kanzan.Hub.Store.{HubEmail, Priority, Action, LiveEvent, Db, save, write_log, broadcast}
use kanzan.Hub.Reassign.{is_key}
use kanzan.Hub.Park.{priority_number}

-- A row of `Department`.
pub record Department : Type 0 where
  pub id : ℕ
  pub default_queue : Option ℕ
  pub is_active : Bool

-- A row of `RoutingRule`; a blank priority is none.
pub record Rule : Type 0 where
  pub id : ℕ
  pub department : Option Department
  pub queue : Option ℕ
  pub category : String
  pub priority : Option Priority
  pub stop_on_match : Bool
  pub conditions : Match

-- `RoutingDecision`
pub record Decision : Type 0 where
  pub department : Option Department
  pub queue : Option ℕ
  pub category : String
  pub priority : Option Priority
  pub matched_rule : Option ℕ

-- `new if new else old`
abbrev pub set_or {ℓ} : {A : Type ℓ} → Option A → Option A → Option A
set_or none old = old
set_or (some new) old = some new

-- What a rule that matches sets.
abbrev pub merge : Rule → Decision → Decision
merge r d = record {
  department = set_or r.department d.department;
  queue = set_or r.queue d.queue;
  category = if str_eq r.category "" then d.category else r.category;
  priority = set_or r.priority d.priority;
  matched_rule = some r.id;
}

abbrev pub undecided : Decision
undecided = record {
  department = none;
  queue = none;
  category = "";
  priority = none;
  matched_rule = none;
}

-- The `for` loop of `evaluate`, over the rules in their order.
pub evaluate_loop : (Rule → Bool) → List Rule → Decision → Decision
evaluate_loop matches [] d = d
evaluate_loop matches (r ∷ rs) d =
    let skipped = evaluate_loop matches rs d in
    let merged = evaluate_loop matches rs (merge r d) in
    if matches r then if r.stop_on_match then merge r d else merged else skipped

-- `_default_department`, from the tenant's setting and its active departments
abbrev pub only : List Department → Option Department
only [] = none
only (d ∷ []) = some d
only (d ∷ e ∷ ds) = none

abbrev pub default_department : Option Department → List Department → Option Department
default_department none active = only active
default_department (some d) active = if d.is_active then some d else only active

-- The queue, with the department's default.
abbrev pub resolve_queue : Option Department → Option ℕ → Option ℕ
resolve_queue department (some q) = some q
resolve_queue none none = none
resolve_queue (some d) none = d.default_queue

abbrev pub resolve : Option Department → Decision → Decision
resolve fallback d =
    let department = set_or d.department fallback in
    record d { department = department; queue = resolve_queue department d.queue }

-- `evaluate`
pub evaluate : (Rule → Bool) → List Rule → Option Department → Decision
unfolding evaluate_loop
evaluate matches rules fallback = resolve fallback (evaluate_loop matches rules undecided)

-- The test of a rule on an email, whose addresses are stripped of blanks.
unfoldable pub matches_email : (Text → Text) → (Text → Text → Option Bool) → Email → Rule → Bool
matches_email lower search e r = rule_matches lower search r.conditions e

-- The fields that `_apply` changes: a test for each.
abbrev pub moves_key : Option ℕ → Option ℕ → Bool
moves_key none old = false
moves_key (some new) old = not (is_key old new)

abbrev pub department_id : Decision → Option ℕ
department_id d = elim d.department [ none ↦ none | some x ↦ some x.id ]

abbrev pub moves_category : String → String → Bool
moves_category new old = not (str_eq new "") && not (str_eq old new)

abbrev pub moves_priority : Option Priority → Priority → Bool
moves_priority none old = false
moves_priority (some new) old = not (priority_number old == priority_number new)

abbrev pub new_priority : Option Priority → Priority → Priority
new_priority none old = old
new_priority (some new) old = new

abbrev pub moves_any : Decision → HubEmail → Bool
moves_any d e =
    moves_key (department_id d) e.department
    || (moves_key d.queue e.queue
        || (moves_category d.category e.category || moves_priority d.priority e.priority))

-- A row after `save`: the fields that changed on the copy `e` are written.
abbrev pub routed : Decision → HubEmail → HubEmail → HubEmail
routed d e row = record row {
  department = if moves_key (department_id d) e.department then department_id d else row.department;
  queue = if moves_key d.queue e.queue then d.queue else row.queue;
  category = if moves_category d.category e.category then d.category else row.category;
  priority =
      if moves_priority d.priority e.priority
      then new_priority d.priority row.priority
      else row.priority;
}

-- `_apply`
pub apply_decision : HubEmail → Decision → Db → HubEmail × Db
apply_decision e d db =
    if moves_any d e
    then (let e' = routed d e e in
        let db1 = record db { emails = save e.pk (routed d e) db.emails } in
        let db2 = write_log e.pk none Action.email_categorised db1 in
        let db3 =
          if moves_key d.queue e.queue then write_log e.pk none Action.email_queued db2 else db2 in
        (e', broadcast LiveEvent.transitioned e' db3))
    else (e, db)

-- `classify_and_route`, with the decision
pub classify_and_route :
    (Rule → Bool) → List Rule → Option Department → HubEmail → Db → Decision × (HubEmail × Db)
unfolding evaluate apply_decision
classify_and_route matches rules fallback e db =
    let d = evaluate matches rules fallback in (d, apply_decision e d db)
