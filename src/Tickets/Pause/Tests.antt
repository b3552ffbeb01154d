-- ===== src/Tickets/Pause/Tests.antt =====
-- Runs of the pauses of a ticket at concrete times.
use kanzan.Prelude.{◌≡◌, refl, none, some, List, []}
use kanzan.Sla.Clock.{get_business_config}
use kanzan.Sla.Count.Returns.{TimesOfDay}
use kanzan.Sla.Samples.{only_utc, shop_tenant, shop_config, shop-IsTimetable, monday_afternoon}
use mathlib.Core.Path.{subst, sym}
use kanzan.Tickets.Rows.{Effect}
use kanzan.Tickets.Samples.{waiting, fresh}
use kanzan.Tickets.Pause.{Clock, save_status}
use kanzan.Tickets.Pause.Clocked.{IsClocked}
use kanzan.Tickets.Pause.Resumes.{save_status-IsClocked}

shop-TimesOfDay : TimesOfDay only_utc (get_business_config only_utc shop_tenant)
shop-TimesOfDay = subst (TimesOfDay only_utc) (sym shop_config) shop-IsTimetable

abbrev running : Clock
running = record { ticket = fresh; rows = [] }

running-IsClocked : IsClocked running
running-IsClocked = record { open_when = refl; stamped_when = refl }

save_status-IsClocked_example :
    (r : Clock × List Effect) × (save_status only_utc shop_tenant waiting none monday_afternoon
        running
      ≡ some r)
    × IsClocked r.0
save_status-IsClocked_example =
    save_status-IsClocked only_utc shop_tenant shop-TimesOfDay waiting none monday_afternoon running
      running-IsClocked
