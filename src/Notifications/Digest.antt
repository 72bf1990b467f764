-- ===== src/Notifications/Digest.antt =====
-- `deliver_pending_email_digests`: one mail for each user with rows to be mailed.
use flipradar.Notifications.Emit.{mails_allowed}
use flipradar.Auth.Platform.{EmailSendResult}
use flipradar.Notifications.Stores.{
  mark_notification_emails_sent, list_users_with_pending_notification_emails,
  list_pending_notification_emails, create_notification_audit_log, get_user_notification_settings,
  disable_pending_notification_emails,
}
use flipradar.Notifications.Rows.{
  AuditEvent, Tables, Notification, UserNotificationSettings, delivery_failed, delivered,
  delivery_deferred,
}
use flipradar.Base.{
  none, some, ℕ, Option, Bool, List, if◌then◌else◌, length, ◌∷◌, ◌+◌, false, ◌++◌, ltb, [], leb,
  ◌==◌, ◌&&◌, ◌||◌, not, ◌%◌,
}

-- What other packages do. `zone_time` is the time of the day in a time zone, `none` for a zone that is
-- not found; `send` hands over a mail with the given notifications for a user, after so many other
-- mails, `none` for an exception.
pub record Platform : Type 0 where
  pub zone_time : ℕ → ℕ → Option ℕ
  pub send : ℕ → ℕ → List ℕ → Option EmailSendResult

abbrev pub day : ℕ
day = 86_400_000_000

-- A mail: the user and the notifications in it, and whether it was sent.
pub record Digest : Type 0 where
  pub user_id : ℕ
  pub ids : List ℕ
  pub sent : Bool

pub record Outbox : Type 0 where
  pub tables : Tables
  pub digests : List Digest

-- Between two times of the day, the second of which may be on the next day.
abbrev pub between_times : ℕ → ℕ → ℕ → Bool
between_times start end time =
    if ltb start end then leb start time && ltb time end else leb start time || ltb time end

abbrev pub audit_each : ℕ → AuditEvent → List ℕ → Tables → Tables
audit_each user_id event [] t = t
audit_each user_id event (id ∷ ids) t =
    audit_each user_id event ids (create_notification_audit_log user_id (some id) event t)

-- What follows the call of the mail service: the number of rows delivered, and the tables.
unfoldable pub after_send : ℕ → List ℕ → ℕ → Option EmailSendResult → Tables → ℕ × Tables
unfolding mark_notification_emails_sent create_notification_audit_log
after_send user_id ids now none t = (0, audit_each user_id delivery_failed ids t)
after_send user_id ids now (some r) t =
    if r.sent
    then (length ids, audit_each user_id delivered ids (mark_notification_emails_sent ids now t))
    else (0, audit_each user_id (if r.attempted then delivery_failed else delivery_deferred) ids t)

abbrev pub was_sent : Option EmailSendResult → Bool
was_sent none = false
was_sent (some r) = r.sent

abbrev pub ids_of : List Notification → List ℕ
ids_of [] = []
ids_of (n ∷ ns) = n.id ∷ ids_of ns

module _ (p : Platform) where
  -- `now.astimezone(ZoneInfo(timezone)).time()`, in UTC for an unknown zone
  abbrev pub local_time : ℕ → ℕ → ℕ
  local_time timezone now = elim (p.zone_time timezone now) [ none ↦ now % day | some t ↦ t ]

  unfoldable pub quiet_hours_active : Option UserNotificationSettings → ℕ → Bool
  quiet_hours_active none now = false
  quiet_hours_active (some s) now = elim s.quiet_hours [
    | none ↦ false
    | some (start, end) ↦ between_times start end (local_time s.timezone now)
  ]

  -- The mail of one user.
  unfoldable pub send_digest : ℕ → ℕ → List ℕ → Outbox → ℕ × Outbox
  unfolding after_send
  send_digest now user_id ids o =
      let result = p.send (length o.digests) user_id ids in
      let (count, t) = after_send user_id ids now result o.tables in
      (
        count,
        record {
          tables = t;
          digests =
              o.digests ++ (record { user_id = user_id; ids = ids; sent = was_sent result } ∷ []);
        },
      )

  -- The rows that were pending and those delivered, for one user.
  unfoldable pub deliver_user : ℕ → ℕ → Outbox → (ℕ × ℕ) × Outbox
  unfolding send_digest list_pending_notification_emails get_user_notification_settings
      disable_pending_notification_emails quiet_hours_active
  deliver_user now user_id o =
      let ids = ids_of (list_pending_notification_emails user_id o.tables) in
      let settings = get_user_notification_settings user_id o.tables in
      let (count, sent) = send_digest now user_id ids o in
      if length ids == 0
      then ((0, 0), o)
      else if not (mails_allowed settings)
      then (
        (length ids, 0),
        record o { tables = disable_pending_notification_emails user_id none o.tables },
      )
      else if quiet_hours_active settings now
      then ((length ids, 0), o)
      else ((length ids, count), sent)

  unfoldable pub deliver_users : ℕ → List ℕ → Outbox → (ℕ × ℕ) × Outbox
  unfolding deliver_user
  deliver_users now [] o = ((0, 0), o)
  deliver_users now (u ∷ us) o =
      let ((waiting, count), o') = deliver_user now u o in
      let ((more, others), o'') = deliver_users now us o' in ((waiting + more, count + others), o'')

  -- The users, the rows that were pending, the rows delivered, and what is left.
  unfoldable pub deliver_pending_email_digests : ℕ → Outbox → (ℕ × ℕ × ℕ) × Outbox
  unfolding deliver_users list_users_with_pending_notification_emails
  deliver_pending_email_digests now o =
      let users = list_users_with_pending_notification_emails o.tables in
      let ((waiting, count), o') = deliver_users now users o in ((length users, waiting, count), o')
