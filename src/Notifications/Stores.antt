-- ===== src/Notifications/Stores.antt =====
-- The notification functions of backend/flipradar/database/repositories.py.
use flipradar.Base.{
  Option, List, ℕ, true, find, count_by, update_where, Bool, ◌∷◌, some, select, if◌then◌else◌, none,
  ◌++◌, false, some_row, ◌==◌, ◌&&◌, not, [], is_some, ◌+◌,
}
use flipradar.Notifications.Rows.{
  Tables, UserNotificationSettings, Notification, NotificationPreference, AuditEvent,
  NotificationType, DedupeKey, notification_type_eq, EventKey, dedupe_key_eq, event_key_eq,
}

-- `db.add(audit_log)`
unfoldable pub create_notification_audit_log : ℕ → Option ℕ → AuditEvent → Tables → Tables
create_notification_audit_log user_id notification_id event t = record t {
  audit_logs =
      t.audit_logs
      ++ (record { user_id = user_id; notification_id = notification_id; event = event } ∷ []);
}

-- `get_latest_notification_by_dedupe_key(...) is not None`
unfoldable pub has_dedupe_key : ℕ → DedupeKey → Tables → Bool
has_dedupe_key user_id key t =
    some_row (λ n. n.user_id == user_id && dedupe_key_eq n.dedupe_key key) t.notifications

-- The event key is unique: a second row of it is refused, in a savepoint.
unfoldable pub create_notification :
    ℕ
    → NotificationType
    → EventKey
    → DedupeKey
    → Bool
    → Bool
    → Tables
    → Option Notification × Tables
create_notification user_id kind event_key dedupe_key in_app email t =
    let row : Notification = record {
      id = t.next_id;
      user_id = user_id;
      notification_type = kind;
      event_key = event_key;
      dedupe_key = dedupe_key;
      is_in_app = in_app;
      is_read = false;
      email_eligible = email;
      email_sent_at = none;
      read_at = none;
    } in
    if some_row (λ n. event_key_eq n.event_key event_key) t.notifications then (none, t) else (
      some row,
      record t { notifications = t.notifications ++ (row ∷ []); next_id = t.next_id + 1 },
    )

-- In the inbox of the user.
abbrev pub inbox : ℕ → Notification → Bool
inbox user_id n = n.user_id == user_id && n.is_in_app

abbrev pub unread : ℕ → Notification → Bool
unread user_id n = inbox user_id n && not n.is_read

unfoldable pub get_notification_for_user : ℕ → ℕ → Tables → Option Notification
get_notification_for_user notification_id user_id t =
    find (λ n. n.id == notification_id && inbox user_id n) t.notifications

unfoldable pub unread_notification_count : ℕ → Tables → ℕ
unread_notification_count user_id t = count_by (unread user_id) t.notifications

abbrev pub read_by : ℕ → Notification → Notification
read_by at n = record n { is_read = true; read_at = some at }

-- The change of the row that was found.
unfoldable pub mark_notification_read : Notification → ℕ → Tables → Tables
mark_notification_read notification at t = record t {
  notifications = update_where (λ n. n.id == notification.id) (read_by at) t.notifications;
}

-- The number of rows that changed, and the tables.
unfoldable pub mark_all_notifications_read : ℕ → ℕ → Tables → ℕ × Tables
mark_all_notifications_read user_id at t = (
  count_by (unread user_id) t.notifications,
  record t { notifications = update_where (unread user_id) (read_by at) t.notifications },
)

abbrev pub preference_of : ℕ → NotificationType → NotificationPreference → Bool
preference_of user_id kind p = p.user_id == user_id && notification_type_eq p.notification_type kind

-- `list_notification_preferences(...).get(kind)`
unfoldable pub get_preference : ℕ → NotificationType → Tables → Option NotificationPreference
get_preference user_id kind t = find (preference_of user_id kind) t.preferences

-- What `exclude_unset` keeps of a body: nothing, or a value.
abbrev pub provided {ℓ} : {A : Type ℓ} → Option A → A → A
provided none old = old
provided (some a) old = a

-- The fields of `NotificationPreferenceUpdate` that are given.
pub record PreferenceUpdate : Type 0 where
  pub in_app_enabled : Option Bool
  pub email_enabled : Option Bool

abbrev pub changed_preference : PreferenceUpdate → NotificationPreference → NotificationPreference
changed_preference u p = record p {
  in_app_enabled = provided u.in_app_enabled p.in_app_enabled;
  email_enabled = provided u.email_enabled p.email_enabled;
}

-- A new row has the defaults of its columns in the fields that are not given.
unfoldable pub upsert_notification_preference :
    ℕ → NotificationType → PreferenceUpdate → Tables → NotificationPreference × Tables
unfolding get_preference
upsert_notification_preference user_id kind u t =
    let fresh : NotificationPreference = changed_preference u (record {
      user_id = user_id;
      notification_type = kind;
      in_app_enabled = true;
      email_enabled = false;
    }) in
    let found = get_preference user_id kind t in
    (
      elim found [ none ↦ fresh | some p ↦ changed_preference u p ],
      record t {
        preferences = elim found [
          | none ↦ t.preferences ++ (fresh ∷ [])
          | some p ↦ update_where (preference_of user_id kind) (changed_preference u) t.preferences
        ];
      },
    )

abbrev pub settings_of : ℕ → UserNotificationSettings → Bool
settings_of user_id s = s.user_id == user_id

unfoldable pub get_user_notification_settings : ℕ → Tables → Option UserNotificationSettings
get_user_notification_settings user_id t = find (settings_of user_id) t.settings

-- The fields of `NotificationSettingsUpdate` that are given. Its validator wants both ends of the quiet
-- hours, or none.
pub record SettingsUpdate : Type 0 where
  pub email_enabled : Option Bool
  pub timezone : Option ℕ
  pub quiet_hours : Option (Option (ℕ × ℕ))

abbrev pub changed_settings : SettingsUpdate → UserNotificationSettings → UserNotificationSettings
changed_settings u s = record s {
  email_enabled = provided u.email_enabled s.email_enabled;
  timezone = provided u.timezone s.timezone;
  quiet_hours = provided u.quiet_hours s.quiet_hours;
}

-- The time zone 0 is "UTC", the default of its column.
unfoldable pub upsert_user_notification_settings :
    ℕ → SettingsUpdate → Tables → UserNotificationSettings × Tables
unfolding get_user_notification_settings
upsert_user_notification_settings user_id u t =
    let fresh : UserNotificationSettings =
      changed_settings u
        (record { user_id = user_id; email_enabled = true; timezone = 0; quiet_hours = none }) in
    let found = get_user_notification_settings user_id t in
    (
      elim found [ none ↦ fresh | some s ↦ changed_settings u s ],
      record t {
        settings = elim found [
          | none ↦ t.settings ++ (fresh ∷ [])
          | some s ↦ update_where (settings_of user_id) (changed_settings u) t.settings
        ];
      },
    )

-- To be mailed: eligible and not sent.
abbrev pub pending : ℕ → Notification → Bool
pending user_id n = n.user_id == user_id && n.email_eligible && not (is_some n.email_sent_at)

abbrev pub of_type : Option NotificationType → Notification → Bool
of_type none n = true
of_type (some kind) n = notification_type_eq n.notification_type kind

abbrev pub without_mail : Notification → Notification
without_mail n = record n { email_eligible = false }

unfoldable pub disable_pending_notification_emails : ℕ → Option NotificationType → Tables → Tables
disable_pending_notification_emails user_id kind t = record t {
  notifications =
      update_where (λ n. pending user_id n && of_type kind n) without_mail t.notifications;
}

-- The users of the pending rows, each of them once.
abbrev pub has : ℕ → List ℕ → Bool
has a xs = some_row (λ x. x == a) xs

abbrev pub pending_users : List Notification → List ℕ
pending_users [] = []
pending_users (n ∷ ns) =
    let users = pending_users ns in
    if pending n.user_id n && not (has n.user_id users) then n.user_id ∷ users else users

unfoldable pub list_users_with_pending_notification_emails : Tables → List ℕ
list_users_with_pending_notification_emails t = pending_users t.notifications

unfoldable pub list_pending_notification_emails : ℕ → Tables → List Notification
list_pending_notification_emails user_id t = select (pending user_id) t.notifications

abbrev pub mailed_by : ℕ → Notification → Notification
mailed_by at n = record n { email_sent_at = some at }

unfoldable pub mark_notification_emails_sent : List ℕ → ℕ → Tables → Tables
mark_notification_emails_sent ids at t = record t {
  notifications = update_where (λ n. has n.id ids) (mailed_by at) t.notifications;
}
