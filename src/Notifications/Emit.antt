-- ===== src/Notifications/Emit.antt =====
-- `emit_watchlist_notifications`: which events an observation brings, and what is stored of them.
use flipradar.Base.Decimal.{quantize}
use flipradar.Base.Int.{ℤ, scale, sub_ℕ, leb_ℤ}
use flipradar.Notifications.Rows.{
  active, sold, ended, removed, Payload, Tables, Observation, UserNotificationSettings,
  NotificationType, NotificationPreference, ListingStatus, Notification, created, prices, DedupeKey,
  price_drop, EventKey, scores, suppressed_duplicate, target_reached, ended_listing, deal_score,
  became, reached,
}
use flipradar.Notifications.Stores.{
  get_preference, create_notification_audit_log, create_notification,
  get_user_notification_settings, has_dedupe_key,
}
use flipradar.Base.{
  ℕ, Option, some, Bool, List, [], false, suc, ◌&&◌, ltb, true, if◌then◌else◌, ◌∷◌, leb, not, none,
}

-- `_preference_values`
unfoldable pub preference_values : Option NotificationPreference → Bool × Bool
preference_values none = (true, false)
preference_values (some p) = (p.in_app_enabled, p.email_enabled)

abbrev pub kind_of : Payload → NotificationType
kind_of (prices previous current) = price_drop
kind_of (reached target current) = target_reached
kind_of (became now) = ended_listing
kind_of (scores previous current) = deal_score

-- `INACTIVE_LISTING_STATUSES`
abbrev pub inactive : Option ListingStatus → Bool
inactive none = false
inactive (some active) = false
inactive (some sold) = true
inactive (some ended) = true
inactive (some removed) = true

-- The drop from one price to another in hundredths of a percent of the first.
unfoldable pub drop_percent : ℕ → ℕ → ℤ
unfolding quantize scale
drop_percent previous current = quantize (scale 10_000 (sub_ℕ previous current)) previous

-- A price of zero is no price, as Python's truth has it.
unfoldable pub price_drop_event : ℤ → Option ℕ → Option ℕ → Option Payload
unfolding drop_percent
price_drop_event threshold (some (suc previous)) (some current) =
    if leb_ℤ threshold (drop_percent (suc previous) current)
    then some (prices (suc previous) current)
    else none
price_drop_event threshold previous current = none

-- `previous.listing_price is None or previous.target_price is None or` the first is above the second
abbrev pub was_above : Option ℕ → Option ℕ → Bool
was_above (some price) (some target) = ltb target price
was_above price target = true

unfoldable pub target_event : Observation → Option ℕ → Option ℕ → Option Payload
target_event previous (some target_price) (some price) =
    if leb price target_price && was_above previous.listing_price previous.target_price
    then some (reached target_price price)
    else none
target_event previous target_price price = none

unfoldable pub ended_event : Option ListingStatus → Option ListingStatus → Option Payload
ended_event previous (some now) =
    if not (inactive previous) && inactive (some now) then some (became now) else none
ended_event previous none = none

-- `BUY_DEAL_SCORE`
abbrev pub buy_deal_score : ℕ
buy_deal_score = 7_000

abbrev pub was_below : Option ℕ → Bool
was_below none = true
was_below (some score) = ltb score buy_deal_score

unfoldable pub score_event : Option ℕ → Option ℕ → Option Payload
score_event previous (some score) =
    if leb buy_deal_score score && was_below previous then some (scores previous score) else none
score_event previous none = none

abbrev pub given : Option Payload → List Payload → List Payload
given none rest = rest
given (some e) rest = e ∷ rest

-- The events of an observation after another, in the order of the code.
unfoldable pub events_of : ℤ → Observation → Observation → List Payload
unfolding price_drop_event target_event ended_event score_event
events_of threshold previous current =
    given (price_drop_event threshold previous.listing_price current.listing_price) (
      given (target_event previous current.target_price current.listing_price) (
        given (ended_event previous.listing_status current.listing_status)
          (given (score_event previous.deal_score current.deal_score) [])))

-- Whether a mail may be sent, by the settings of the user.
abbrev pub mails_allowed : Option UserNotificationSettings → Bool
mails_allowed none = true
mails_allowed (some s) = s.email_enabled

-- What `emit` does once the notification may be stored.
unfoldable pub audited : ℕ → Option Notification × Tables → Option Notification × Tables
unfolding create_notification_audit_log
audited user_id (none, t) = (none, t)
audited user_id (some n, t) = (some n, create_notification_audit_log user_id (some n.id) created t)

-- `emit`, by the channels that are on.
unfoldable pub emit_on : ℕ → ℕ → ℕ → Bool → Bool → Payload → Tables → Option Notification × Tables
unfolding audited create_notification_audit_log create_notification has_dedupe_key
emit_on user_id item observation in_app email payload t =
    let kind = kind_of payload in
    let key : DedupeKey = record { item = item; notification_type = kind; payload = payload } in
    let event : EventKey = record { observation = observation; notification_type = kind } in
    if not in_app && not email
    then (none, t)
    else if has_dedupe_key user_id key t
    then (none, create_notification_audit_log user_id none suppressed_duplicate t)
    else audited user_id (create_notification user_id kind event key in_app email t)

-- `emit`: the preferences and the settings are those that were read at the start.
unfoldable pub emit : ℕ → ℕ → ℕ → Tables → Payload → Tables → Option Notification × Tables
unfolding emit_on preference_values get_preference get_user_notification_settings
emit user_id item observation start payload t =
    let (in_app, email) = preference_values (get_preference user_id (kind_of payload) start) in
    let allowed = mails_allowed (get_user_notification_settings user_id start) in
    emit_on user_id item observation in_app (email && allowed) payload t

abbrev pub listed : Option Notification → List Notification → List Notification
listed none rest = rest
listed (some n) rest = n ∷ rest

unfoldable pub emit_each : ℕ → ℕ → ℕ → Tables → List Payload → Tables → List Notification × Tables
unfolding emit
emit_each user_id item observation start [] t = ([], t)
emit_each user_id item observation start (e ∷ es) t =
    let (n, t') = emit user_id item observation start e t in
    let (ns, t'') = emit_each user_id item observation start es t' in (listed n ns, t'')

-- The notifications that were created, and the tables.
unfoldable pub emit_watchlist_notifications :
    ℕ → ℕ → Observation → Observation → ℤ → Tables → List Notification × Tables
unfolding emit_each events_of
emit_watchlist_notifications user_id item previous current threshold t =
    emit_each user_id item current.id t (events_of threshold previous current) t
