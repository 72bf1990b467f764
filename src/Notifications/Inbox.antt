-- ===== src/Notifications/Inbox.antt =====
-- What a user does: reading, preferences and settings.
use flipradar.Notifications.Rows.{
  Tables, Notification, NotificationType, UserNotificationSettings, email_unsubscribed,
  NotificationPreference,
}
use flipradar.Notifications.Stores.{
  upsert_user_notification_settings, SettingsUpdate, get_notification_for_user,
  upsert_notification_preference, mark_all_notifications_read, mark_notification_read,
  disable_pending_notification_emails, create_notification_audit_log, read_by, PreferenceUpdate,
  inbox,
}
use flipradar.Base.{
  ℕ, Bool, Option, false, some, List, none, not, if◌then◌else◌, select, ◌&&◌, ◌||◌,
}

-- `list_notifications`, without its pages and their order: what is in the inbox.
unfoldable pub list_notifications : ℕ → Bool → Tables → List Notification
list_notifications user_id unread_only t =
    select (λ n. inbox user_id n && (not unread_only || not n.is_read)) t.notifications

-- What was found, or the 404.
abbrev pub read_found : ℕ → Option Notification → Tables → Option Notification × Tables
read_found at none t = (none, t)
read_found at (some n) t =
    if n.is_read then (some n, t) else (some (read_by at n), mark_notification_read n at t)

unfoldable pub mark_read : ℕ → ℕ → ℕ → Tables → Option Notification × Tables
unfolding get_notification_for_user mark_notification_read
mark_read user_id notification_id now t =
    read_found now (get_notification_for_user notification_id user_id t) t

unfoldable pub mark_all_read : ℕ → ℕ → Tables → ℕ × Tables
unfolding mark_all_notifications_read
mark_all_read user_id now t = mark_all_notifications_read user_id now t

-- `data.get("email_enabled") is False`
abbrev pub turns_off : Option Bool → Bool
turns_off none = false
turns_off (some b) = not b

unfoldable pub update_preference :
    ℕ → NotificationType → PreferenceUpdate → Tables → NotificationPreference × Tables
unfolding upsert_notification_preference disable_pending_notification_emails
update_preference user_id kind u t =
    let (p, t') = upsert_notification_preference user_id kind u t in
    (
      p,
      if turns_off u.email_enabled
          then disable_pending_notification_emails user_id (some kind) t'
          else t',
    )

unfoldable pub update_notification_settings :
    ℕ → SettingsUpdate → Tables → UserNotificationSettings × Tables
unfolding upsert_user_notification_settings disable_pending_notification_emails
update_notification_settings user_id u t =
    let (s, t') = upsert_user_notification_settings user_id u t in
    (
      s,
      if turns_off u.email_enabled then disable_pending_notification_emails user_id none t' else t',
    )

-- `{"email_enabled": False}`
abbrev pub mails_off : SettingsUpdate
mails_off = record { email_enabled = some false; timezone = none; quiet_hours = none }

unfoldable pub unsubscribe_email : ℕ → Tables → UserNotificationSettings × Tables
unfolding upsert_user_notification_settings disable_pending_notification_emails
    create_notification_audit_log
unsubscribe_email user_id t =
    let (s, t') = upsert_user_notification_settings user_id mails_off t in
    (
      s,
      create_notification_audit_log user_id none email_unsubscribed
          (disable_pending_notification_emails user_id none t'),
    )
