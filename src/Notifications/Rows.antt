-- ===== src/Notifications/Rows.antt =====
-- The rows of backend/flipradar/domain/models/notification.py, and the observations of watchlist.py
-- that notifications are made from. Identifiers are numbers, prices are cents, scores and percents are
-- hundredths, instants are microseconds.
use flipradar.Base.{ℕ, Bool, true, false, Option, none, some, List, ◌==◌, ◌&&◌}

pub data NotificationType : Type 0 where
  price_drop target_reached ended_listing deal_score : NotificationType

pub data ListingStatus : Type 0 where
  active sold ended removed : ListingStatus

-- `payload`, without the action URL, which depends on the item only.
pub data Payload : Type 0 where
  prices : ℕ → ℕ → Payload
  reached : ℕ → ℕ → Payload
  became : ListingStatus → Payload
  scores : Option ℕ → ℕ → Payload

-- `f"{current.id}:{notification_type.value}"`
pub record EventKey : Type 0 where
  pub observation : ℕ
  pub notification_type : NotificationType

-- `f"{item.id}:{notification_type.value}:{payload}"`
pub record DedupeKey : Type 0 where
  pub item : ℕ
  pub notification_type : NotificationType
  pub payload : Payload

abbrev pub notification_type_eq : NotificationType → NotificationType → Bool
notification_type_eq price_drop price_drop = true
notification_type_eq target_reached target_reached = true
notification_type_eq ended_listing ended_listing = true
notification_type_eq deal_score deal_score = true
notification_type_eq _ _ = false

abbrev pub status_eq : ListingStatus → ListingStatus → Bool
status_eq active active = true
status_eq sold sold = true
status_eq ended ended = true
status_eq removed removed = true
status_eq _ _ = false

abbrev pub option_eq : Option ℕ → Option ℕ → Bool
option_eq none none = true
option_eq (some a) (some b) = a == b
option_eq _ _ = false

abbrev pub payload_eq : Payload → Payload → Bool
payload_eq (prices a b) (prices c d) = a == c && b == d
payload_eq (reached a b) (reached c d) = a == c && b == d
payload_eq (became a) (became b) = status_eq a b
payload_eq (scores a b) (scores c d) = option_eq a c && b == d
payload_eq _ _ = false

abbrev pub event_key_eq : EventKey → EventKey → Bool
event_key_eq a b =
    a.observation == b.observation && notification_type_eq a.notification_type b.notification_type

abbrev pub dedupe_key_eq : DedupeKey → DedupeKey → Bool
dedupe_key_eq a b =
    a.item == b.item
    && notification_type_eq a.notification_type b.notification_type
    && payload_eq a.payload b.payload

pub record Notification : Type 0 where
  pub id : ℕ
  pub user_id : ℕ
  pub notification_type : NotificationType
  pub event_key : EventKey
  pub dedupe_key : DedupeKey
  pub is_in_app : Bool
  pub is_read : Bool
  pub email_eligible : Bool
  pub email_sent_at : Option ℕ
  pub read_at : Option ℕ

pub record NotificationPreference : Type 0 where
  pub user_id : ℕ
  pub notification_type : NotificationType
  pub in_app_enabled : Bool
  pub email_enabled : Bool

-- The check constraint wants both ends of the quiet hours or neither. They are times of the day.
pub record UserNotificationSettings : Type 0 where
  pub user_id : ℕ
  pub email_enabled : Bool
  pub timezone : ℕ
  pub quiet_hours : Option (ℕ × ℕ)

pub data AuditEvent : Type 0 where
  suppressed_duplicate created email_unsubscribed : AuditEvent
  delivered delivery_failed delivery_deferred : AuditEvent

pub record NotificationAuditLog : Type 0 where
  pub user_id : ℕ
  pub notification_id : Option ℕ
  pub event : AuditEvent

-- A row of the price history of a watchlist item.
pub record Observation : Type 0 where
  pub id : ℕ
  pub listing_price : Option ℕ
  pub listing_status : Option ListingStatus
  pub deal_score : Option ℕ
  pub target_price : Option ℕ

-- The tables, rows in the order in which they were added. `next_id` stands for `uuid4`.
pub record Tables : Type 0 where
  pub notifications : List Notification
  pub preferences : List NotificationPreference
  pub settings : List UserNotificationSettings
  pub audit_logs : List NotificationAuditLog
  pub next_id : ℕ
