-- ===== src/Notifications/Keeps.antt =====
-- Properties of the tables that the service's functions keep, by those of the repository.
use flipradar.Auth.Platform.{EmailSendResult}
use flipradar.Notifications.Digest.{
  after_send, audit_each, Platform, Outbox, deliver_users, deliver_user, ids_of, send_digest,
  quiet_hours_active,
}
use flipradar.Base.Int.{ℤ}
use flipradar.Notifications.Emit.{
  emit_on, audited, emit_each, emit_watchlist_notifications, emit, kind_of, mails_allowed,
  events_of, preference_values,
}
use flipradar.Notifications.Stores.{
  SettingsUpdate, get_notification_for_user, upsert_user_notification_settings,
  create_notification_audit_log, PreferenceUpdate, mark_notification_read,
  mark_all_notifications_read, upsert_notification_preference, disable_pending_notification_emails,
  mark_notification_emails_sent, read_by, has_dedupe_key, create_notification,
  get_user_notification_settings, get_preference, list_pending_notification_emails, without_mail,
  mailed_by, unread, pending, of_type, has,
}
use flipradar.Notifications.Inbox.{
  update_preference, mark_read, mark_all_read, unsubscribe_email, update_notification_settings,
  turns_off, mails_off, read_found,
}
use flipradar.Notifications.Rows.{
  Tables, AuditEvent, NotificationType, Notification, email_unsubscribed, EventKey, DedupeKey,
  created, Observation, Payload, suppressed_duplicate, delivery_failed, delivered,
  delivery_deferred,
}
use flipradar.Base.{
  ℕ, Option, Bool, if◌then◌else◌, some, none, Bool-cases, inl, inr, List, ◌≡◌, false, ◌&&◌, not,
  ◌∷◌, true, [], length, ◌==◌, refl, update_where,
}

-- What every change of existing rows keeps, but a change of the settings and a new notification.
pub record Lasting (Q : Tables → Type 0) : Type 0 where
  pub log :
      (user_id : ℕ) (id : Option ℕ) (event : AuditEvent) (t : Tables)
      → Q t
      → Q (create_notification_audit_log user_id id event t)
  pub read : (n : Notification) (at : ℕ) (t : Tables) → Q t → Q (mark_notification_read n at t)
  pub read_each :
      (user_id at : ℕ) (t : Tables) → Q t → Q (mark_all_notifications_read user_id at t).1
  pub prefer :
      (user_id : ℕ) (kind : NotificationType) (u : PreferenceUpdate) (t : Tables)
      → Q t
      → Q (upsert_notification_preference user_id kind u t).1
  pub disable :
      (user_id : ℕ) (kind : Option NotificationType) (t : Tables)
      → Q t
      → Q (disable_pending_notification_emails user_id kind t)
  pub mark : (ids : List ℕ) (at : ℕ) (t : Tables) → Q t → Q (mark_notification_emails_sent ids at t)

-- A property of the rows that is kept by each way in which rows are changed.
pub rows_Lasting :
    (P : List Notification → ℕ → Type 0)
    → ((q : Notification → Bool) (at : ℕ) (ns : List Notification) (next : ℕ)
        → P ns next
        → P (update_where q (read_by at) ns) next)
    → ((q : Notification → Bool) (ns : List Notification) (next : ℕ)
        → P ns next
        → P (update_where q without_mail ns) next)
    → ((q : Notification → Bool) (at : ℕ) (ns : List Notification) (next : ℕ)
        → P ns next
        → P (update_where q (mailed_by at) ns) next)
    → Lasting (λ t. P t.notifications t.next_id)
unfolding create_notification_audit_log mark_notification_read mark_all_notifications_read
    upsert_notification_preference disable_pending_notification_emails mark_notification_emails_sent
rows_Lasting P r d m = record {
  log = λ u i e t h. h;
  read = λ n at t h. r (λ k. k.id == n.id) at t.notifications t.next_id h;
  read_each = λ u at t h. r (unread u) at t.notifications t.next_id h;
  prefer = λ u k x t h. h;
  disable = λ u k t h. d (λ n. pending u n && of_type k n) t.notifications t.next_id h;
  mark = λ ids at t h. m (λ n. has n.id ids) at t.notifications t.next_id h;
}

either : (Q : Tables → Type 0) (b : Bool) {t u : Tables} → Q t → Q u → Q (if b then t else u)
either Q true h k = h
either Q false h k = k

pub one_of :
    {A : Type 0} (Q : Tables → Type 0) (b : Bool) (r s : A × Tables)
    → Q r.1
    → Q s.1
    → Q (if◌then◌else◌ {A = A × Tables} b r s).1
one_of Q true r s h k = h
one_of Q false r s h k = k

module _ {Q : Tables → Type 0} (l : Lasting Q) where
  read_found_keeps : (at : ℕ) (o : Option Notification) (t : Tables) → Q t → Q (read_found at o t).1
  read_found_keeps at none t h = h
  read_found_keeps at (some n) t h =
      one_of Q n.is_read (some n, t) (some (read_by at n), mark_notification_read n at t) h
        (l.read n at t h)

  pub mark_read_keeps : (user_id id now : ℕ) (t : Tables) → Q t → Q (mark_read user_id id now t).1
  unfolding mark_read
  mark_read_keeps user_id id now t h =
      read_found_keeps now (get_notification_for_user id user_id t) t h

  pub mark_all_read_keeps : (user_id now : ℕ) (t : Tables) → Q t → Q (mark_all_read user_id now t).1
  unfolding mark_all_read
  mark_all_read_keeps user_id now t h = l.read_each user_id now t h

  pub update_preference_keeps :
      (user_id : ℕ) (kind : NotificationType) (u : PreferenceUpdate) (t : Tables)
      → Q t
      → Q (update_preference user_id kind u t).1
  unfolding update_preference
  update_preference_keeps user_id kind u t h =
      let k = l.prefer user_id kind u t h in
      either Q (turns_off u.email_enabled) (l.disable user_id (some kind) _ k) k

  pub update_notification_settings_keeps :
      (user_id : ℕ) (u : SettingsUpdate) (t : Tables)
      → Q (upsert_user_notification_settings user_id u t).1
      → Q (update_notification_settings user_id u t).1
  unfolding update_notification_settings
  update_notification_settings_keeps user_id u t k =
      either Q (turns_off u.email_enabled) (l.disable user_id none _ k) k

  pub unsubscribe_email_keeps :
      (user_id : ℕ) (t : Tables)
      → Q (upsert_user_notification_settings user_id mails_off t).1
      → Q (unsubscribe_email user_id t).1
  unfolding unsubscribe_email
  unsubscribe_email_keeps user_id t k =
      l.log user_id none email_unsubscribed _ (l.disable user_id none _ k)

-- The emission of notifications to a user, if the property allows each row that is stored and mails
-- for the user only where `Mailed` holds.
module _ {Q : Tables → Type 0} (l : Lasting Q) (user_id : ℕ) (Mailed : Bool → Type 0)
    (add : (kind : NotificationType) (event : EventKey) (key : DedupeKey) (in_app email : Bool)
        (t : Tables)
      → Mailed email
      → has_dedupe_key user_id key t ≡ false
      → Q t
      → Q (create_notification user_id kind event key in_app email t).1) where
  audited_keeps : (r : Option Notification × Tables) → Q r.1 → Q (audited user_id r).1
  unfolding audited
  audited_keeps (none, t) h = h
  audited_keeps (some n, t) h = l.log user_id (some n.id) created t h

  emit_on_keeps :
      (item observation : ℕ) (in_app email : Bool) (payload : Payload) (t : Tables)
      → Mailed email
      → Q t
      → Q (emit_on user_id item observation in_app email payload t).1
  unfolding emit_on
  emit_on_keeps item observation in_app email payload t m h =
      let kind = kind_of payload in
      let key : DedupeKey = record { item = item; notification_type = kind; payload = payload } in
      let event : EventKey = record { observation = observation; notification_type = kind } in
      one_of Q (not in_app && not email) (none, t) _ h
        (elim (Bool-cases (has_dedupe_key user_id key t)) [
          | inl e ↦ rw e (l.log user_id none suppressed_duplicate t h)
          | inr e ↦ rw e (audited_keeps _ (add kind event key in_app email t m e h))
        ])

  emit_each_keeps :
      (item observation : ℕ) (start : Tables) (es : List Payload) (t : Tables)
      → ((b : Bool) → Mailed (b && mails_allowed (get_user_notification_settings user_id start)))
      → Q t
      → Q (emit_each user_id item observation start es t).1
  unfolding emit_each emit
  emit_each_keeps item observation start [] t m h = h
  emit_each_keeps item observation start (e ∷ es) t m h =
      let (in_app, email) = preference_values (get_preference user_id (kind_of e) start) in
      emit_each_keeps item observation start es _ m
        (emit_on_keeps item observation in_app _ e t (m email) h)

  pub emit_watchlist_notifications_keeps :
      (item : ℕ) (previous current : Observation) (threshold : ℤ) (t : Tables)
      → ((b : Bool) → Mailed (b && mails_allowed (get_user_notification_settings user_id t)))
      → Q t
      → Q (emit_watchlist_notifications user_id item previous current threshold t).1
  unfolding emit_watchlist_notifications
  emit_watchlist_notifications_keeps item previous current threshold t m h =
      emit_each_keeps item current.id t (events_of threshold previous current) t m h

module _ {Q : Tables → Type 0} (l : Lasting Q) where
  pub audit_each_keeps :
      (user_id : ℕ) (event : AuditEvent) (ids : List ℕ) (t : Tables)
      → Q t
      → Q (audit_each user_id event ids t)
  audit_each_keeps user_id event [] t h = h
  audit_each_keeps user_id event (id ∷ ids) t h =
      audit_each_keeps user_id event ids _ (l.log user_id (some id) event t h)

  -- What follows the call of the mail service keeps the property, also where the rows are marked.
  pub after_send_keeps :
      (user_id : ℕ) (ids : List ℕ) (now : ℕ) (r : Option EmailSendResult) (t : Tables)
      → Q t
      → Q (after_send user_id ids now r t).1
  unfolding after_send
  after_send_keeps user_id ids now none t h = audit_each_keeps user_id delivery_failed ids t h
  after_send_keeps user_id ids now (some r) t h =
      one_of Q r.sent _ _ (audit_each_keeps user_id delivered ids _ (l.mark ids now t h)) (
        audit_each_keeps user_id (if r.attempted then delivery_failed else delivery_deferred) ids t
          h)

pub send_digest_keeps :
    {Q : Tables → Type 0} (l : Lasting Q) (p : Platform) (now user_id : ℕ) (ids : List ℕ)
    (o : Outbox)
    → Q o.tables
    → Q (send_digest p now user_id ids o).1.tables
unfolding send_digest
send_digest_keeps l p now user_id ids o h =
    after_send_keeps l user_id ids now (p.send (length o.digests) user_id ids) o.tables h

true_of_not : (b : Bool) → not b ≡ false → b ≡ true
true_of_not true h = refl
true_of_not false h = cc

-- The delivery to each user, by what becomes of the tables and the mails of one.
module _ (p : Platform) (R : Outbox → Type 0) where
  delivered_one :
      {A : Type 0} (b : Bool) (r s : A × Outbox)
      → (b ≡ true → R r.1)
      → (b ≡ false → R s.1)
      → R (if◌then◌else◌ {A = A × Outbox} b r s).1
  delivered_one true r s h k = h refl
  delivered_one false r s h k = k refl

  -- The four ends of a delivery: nothing to be mailed, mails are off, quiet hours, and a mail.
  pub deliver_user-cases :
      (now user_id : ℕ) (o : Outbox)
      → ((length (ids_of (list_pending_notification_emails user_id o.tables)) == 0) ≡ true → R o)
      → R (record o { tables = disable_pending_notification_emails user_id none o.tables })
      → (quiet_hours_active p (get_user_notification_settings user_id o.tables) now ≡ true → R o)
      → (mails_allowed (get_user_notification_settings user_id o.tables) ≡ true
          → R
              (send_digest p now user_id
                (ids_of (list_pending_notification_emails user_id o.tables))
                o).1)
      → R (deliver_user p now user_id o).1
  unfolding deliver_user
  deliver_user-cases now user_id o h k l s =
      let ids : List ℕ = ids_of (list_pending_notification_emails user_id o.tables) in
      let settings = get_user_notification_settings user_id o.tables in
      let (count, sent) = send_digest p now user_id ids o in
      let after : (ℕ × ℕ) × Outbox = ((length ids, count), sent) in
      let waits : (ℕ × ℕ) × Outbox = ((length ids, 0), o) in
      let off : (ℕ × ℕ) × Outbox = (
        (length ids, 0),
        record o { tables = disable_pending_notification_emails user_id none o.tables },
      ) in
      let quiet : Bool = quiet_hours_active p settings now in
      let allowed : Bool = mails_allowed settings in
      let on : (ℕ × ℕ) × Outbox = if quiet then waits else after in
      delivered_one (length ids == 0) ((0, 0), o) (if not allowed then off else on) h
        (λ more.
          delivered_one (not allowed) off on (λ _. k)
            (λ e. delivered_one quiet waits after l (λ _. s (true_of_not allowed e))))

  pub deliver_user_keeps :
      (now user_id : ℕ) (o : Outbox)
      → R o
      → R (record o { tables = disable_pending_notification_emails user_id none o.tables })
      → (mails_allowed (get_user_notification_settings user_id o.tables) ≡ true
          → R
              (send_digest p now user_id
                (ids_of (list_pending_notification_emails user_id o.tables))
                o).1)
      → R (deliver_user p now user_id o).1
  deliver_user_keeps now user_id o h k s = deliver_user-cases now user_id o (λ _. h) k (λ _. h) s

  pub deliver_users_keeps :
      (now : ℕ) (us : List ℕ) (o : Outbox)
      → ((user_id : ℕ) (o : Outbox) → R o → R (deliver_user p now user_id o).1)
      → R o
      → R (deliver_users p now us o).1
  unfolding deliver_users
  deliver_users_keeps now [] o step h = h
  deliver_users_keeps now (u ∷ us) o step h = deliver_users_keeps now us _ step (step u o h)
