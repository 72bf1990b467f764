-- ===== src/Notifications/Steps.antt =====
-- Runs of the notification service: what happens to the tables and the mails, one event at a time.
use flipradar.Notifications.Stores.{PreferenceUpdate, SettingsUpdate}
use flipradar.Notifications.Inbox.{
  mark_read, mark_all_read, update_preference, update_notification_settings, unsubscribe_email,
}
use flipradar.Notifications.Emit.{emit_watchlist_notifications}
use flipradar.Base.Int.{ℤ}
use flipradar.Notifications.Rows.{Observation, NotificationType}
use flipradar.Notifications.Digest.{Platform, Outbox, deliver_pending_email_digests}
use flipradar.Base.{ℕ, List, [], ◌∷◌}

-- `unsubscribe` and the others are the service's functions of these names, with their arguments.
pub data Event : Type 0 where
  observed : ℕ → ℕ → Observation → Observation → ℤ → Event
  read_one : ℕ → ℕ → ℕ → Event
  read_all : ℕ → ℕ → Event
  set_preference : ℕ → NotificationType → PreferenceUpdate → Event
  set_settings : ℕ → SettingsUpdate → Event
  unsubscribed : ℕ → Event
  mailed : ℕ → Event

module _ (p : Platform) where
  unfoldable pub apply : Event → Outbox → Outbox
  unfolding emit_watchlist_notifications mark_read mark_all_read update_preference
      update_notification_settings unsubscribe_email deliver_pending_email_digests
  apply (observed user_id item previous current threshold) o = record o {
    tables = (emit_watchlist_notifications user_id item previous current threshold o.tables).1;
  }
  apply (read_one user_id id now) o = record o { tables = (mark_read user_id id now o.tables).1 }
  apply (read_all user_id now) o = record o { tables = (mark_all_read user_id now o.tables).1 }
  apply (set_preference user_id kind u) o = record o {
    tables = (update_preference user_id kind u o.tables).1;
  }
  apply (set_settings user_id u) o = record o {
    tables = (update_notification_settings user_id u o.tables).1;
  }
  apply (unsubscribed user_id) o = record o { tables = (unsubscribe_email user_id o.tables).1 }
  apply (mailed now) o = (deliver_pending_email_digests p now o).1

  unfoldable pub run : List Event → Outbox → Outbox
  unfolding apply
  run [] o = o
  run (e ∷ es) o = run es (apply e o)

-- No row and no mail yet.
abbrev pub start : Outbox
start = record {
  tables = record {
    notifications = [];
    preferences = [];
    settings = [];
    audit_logs = [];
    next_id = 0;
  };
  digests = [];
}
