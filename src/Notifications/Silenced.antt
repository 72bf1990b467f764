-- ===== src/Notifications/Silenced.antt =====
-- A user who unsubscribed gets no mail.
use flipradar.Notifications.Inbox.{mails_off, unsubscribe_email}
use flipradar.Notifications.Keeps.{
  deliver_user_keeps, send_digest_keeps, one_of, emit_watchlist_notifications_keeps, Lasting,
  mark_read_keeps, mark_all_read_keeps, update_preference_keeps, update_notification_settings_keeps,
  unsubscribe_email_keeps, deliver_users_keeps,
}
use flipradar.Notifications.Emit.{mails_allowed}
use flipradar.Notifications.Rows.{
  Tables, UserNotificationSettings, NotificationType, EventKey, DedupeKey, event_key_eq,
}
use flipradar.Notifications.Steps.{
  Event, run, apply, set_settings, observed, read_one, read_all, set_preference, unsubscribed,
  mailed,
}
use flipradar.Notifications.Stores.{
  create_notification_audit_log, create_notification, SettingsUpdate,
  upsert_user_notification_settings, get_user_notification_settings, mark_notification_read,
  mark_all_notifications_read, settings_of, upsert_notification_preference,
  disable_pending_notification_emails, has_dedupe_key, changed_settings,
  mark_notification_emails_sent, provided, list_users_with_pending_notification_emails,
}
use flipradar.Notifications.Digest.{
  Platform, Digest, Outbox, deliver_pending_email_digests, deliver_user, send_digest, was_sent,
}
use flipradar.Base.{
  ℕ, Option, List, not, is_marked, Bool, ◌==◌, All, ◌≡◌, count_by, find, false, some, true, ◌&&◌,
  ◌∷◌, update_where, none, arith, [], ◌++◌, some_row, Bool-cases, is_marked-find-append, inl,
  is_marked-find-update_where, inr, find-update_where_other, count_by-append, refl,
  is_marked-find-append_new, is_marked-find-update, length,
}

abbrev off : UserNotificationSettings → Bool
off s = not s.email_enabled

abbrev turns_on : Option Bool → Bool
turns_on none = false
turns_on (some b) = b

-- Anything but the user's turning mails on again.
abbrev pub leaves_off : ℕ → Event → Bool
leaves_off user_id (set_settings u x) = not (u == user_id && turns_on x.email_enabled)
leaves_off user_id e = true

-- A mail that was handed over for the user.
abbrev pub mails_to : ℕ → Digest → Bool
mails_to user_id d = d.user_id == user_id

module _ (user_id : ℕ) where
  abbrev IsOff : List UserNotificationSettings → Type 0
  IsOff ss = is_marked off (find (settings_of user_id) ss) ≡ true

  abbrev Off : Tables → Type 0
  Off t = IsOff t.settings

  Lasting-Off : Lasting Off
  unfolding create_notification_audit_log mark_notification_read mark_all_notifications_read
      upsert_notification_preference disable_pending_notification_emails
      mark_notification_emails_sent
  Lasting-Off = record {
    log = λ u i e t h. h;
    read = λ n at t h. h;
    read_each = λ u at t h. h;
    prefer = λ u k x t h. h;
    disable = λ u k t h. h;
    mark = λ ids at t h. h;
  }

  create_notification-Off :
      (u : ℕ) (kind : NotificationType) (event : EventKey) (k : DedupeKey) (in_app email : Bool)
      (t : Tables)
      → Unit {0}
      → has_dedupe_key u k t ≡ false
      → Off t
      → Off (create_notification u kind event k in_app email t).1
  unfolding create_notification
  create_notification-Off u kind event k in_app email t _ fresh h =
      one_of Off (some_row (λ n. event_key_eq n.event_key event) t.notifications) (none, t) _ h h

  -- A change of settings that does not turn the user's mails on.
  changed-IsOff :
      (u : ℕ) (x : SettingsUpdate) (ss : List UserNotificationSettings)
      → not (u == user_id && turns_on x.email_enabled) ≡ true
      → IsOff ss
      → IsOff (update_where (settings_of u) (changed_settings x) ss)
  changed-IsOff u x ss e h = elim (Bool-cases (u == user_id)) [
    | inl mine ↦
        is_marked-find-update_where off (settings_of user_id) (settings_of u) (changed_settings x)
          ss (λ s. refl) (λ s k. still_off x.email_enabled s.email_enabled (ground arith) k) h
    | inr other ↦
        rw
          (find-update_where_other (settings_of user_id) (settings_of u) (changed_settings x) ss
            (λ s k. ground arith) (λ s. refl))
          h
  ]
    where
      still_off :
          (o : Option Bool) (b : Bool)
          → turns_on o ≡ false
          → not b ≡ true
          → not (provided o b) ≡ true
      still_off none b k e = e
      still_off (some c) b k e = ground (arith, k)

  stored-IsOff :
      (u : ℕ) (x : SettingsUpdate) (found : Option UserNotificationSettings)
      (fresh : UserNotificationSettings) (ss : List UserNotificationSettings)
      → not (u == user_id && turns_on x.email_enabled) ≡ true
      → IsOff ss
      → IsOff (elim found [
        | none ↦ ss ++ (fresh ∷ [])
        | some s ↦ update_where (settings_of u) (changed_settings x) ss
      ])
  stored-IsOff u x none fresh ss e h =
      is_marked-find-append off (settings_of user_id) ss (fresh ∷ []) h
  stored-IsOff u x (some s) fresh ss e h = changed-IsOff u x ss e h

  upsert-Off :
      (u : ℕ) (x : SettingsUpdate) (t : Tables)
      → not (u == user_id && turns_on x.email_enabled) ≡ true
      → Off t
      → Off (upsert_user_notification_settings u x t).1
  unfolding upsert_user_notification_settings
  upsert-Off u x t e h = stored-IsOff u x (get_user_notification_settings u t) _ t.settings e h

  not_allowed :
      (o : Option UserNotificationSettings) → is_marked off o ≡ true → mails_allowed o ≡ false
  not_allowed none h = cc
  not_allowed (some s) h = ground arith

  module _ (p : Platform) (k : ℕ) where
    abbrev Silent : Outbox → Type 0
    Silent o = Off o.tables × (count_by (mails_to user_id) o.digests ≡ k)

    send_digest-Silent :
        (now u : ℕ) (ids : List ℕ) (o : Outbox)
        → mails_allowed (get_user_notification_settings u o.tables) ≡ true
        → Silent o
        → Silent (send_digest p now u ids o).1
    unfolding get_user_notification_settings
    send_digest-Silent now u ids o on h = (
      send_digest_keeps Lasting-Off p now u ids o h.0,
      elim (Bool-cases (u == user_id)) [
        | inl e ↦
            let same : u ≡ user_id = ground arith in
            let denied = not_allowed (find (settings_of u) o.tables.settings) (rw same h.0) in cc
        | inr e ↦
            let d : Digest = record {
              user_id = u;
              ids = ids;
              sent = was_sent (p.send (length o.digests) u ids);
            } in
            unfold send_digest in
            ground (arith, h.1, count_by-append (mails_to user_id) o.digests (d ∷ []))
      ],
    )

    deliver_user-Silent : (now u : ℕ) (o : Outbox) → Silent o → Silent (deliver_user p now u o).1
    deliver_user-Silent now u o h =
        deliver_user_keeps p Silent now u o h (Lasting-Off.disable u none o.tables h.0, h.1)
          (λ on. send_digest-Silent now u _ o on h)

    apply-Silent :
        (e : Event) (o : Outbox) → leaves_off user_id e ≡ true → Silent o → Silent (apply p e o)
    unfolding apply deliver_pending_email_digests
    apply-Silent (observed u item previous current threshold) o e h = (
      emit_watchlist_notifications_keeps Lasting-Off u (λ _. Unit {0}) (create_notification-Off u)
          item previous current threshold o.tables (λ _. tt) h.0,
      h.1,
    )
    apply-Silent (read_one u n now) o e h = (mark_read_keeps Lasting-Off u n now o.tables h.0, h.1)
    apply-Silent (read_all u now) o e h = (mark_all_read_keeps Lasting-Off u now o.tables h.0, h.1)
    apply-Silent (set_preference u kind x) o e h =
        (update_preference_keeps Lasting-Off u kind x o.tables h.0, h.1)
    apply-Silent (set_settings u x) o e h = (
      update_notification_settings_keeps Lasting-Off u x o.tables (upsert-Off u x o.tables e h.0),
      h.1,
    )
    apply-Silent (unsubscribed u) o e h = (
      unsubscribe_email_keeps Lasting-Off u o.tables
          (upsert-Off u mails_off o.tables (ground arith) h.0),
      h.1,
    )
    apply-Silent (mailed now) o e h =
        deliver_users_keeps p Silent now (list_users_with_pending_notification_emails o.tables) o
          (λ u o g. deliver_user-Silent now u o g) h

    run-Silent :
        (es : List Event) (o : Outbox)
        → All (λ e. leaves_off user_id e ≡ true) es
        → Silent o
        → Silent (run p es o)
    unfolding run
    run-Silent [] o g h = h
    run-Silent (e ∷ es) o g h = run-Silent es (apply p e o) g.1 (apply-Silent e o g.0 h)

  -- The row of the user after an unsubscription, by what was found before.
  unsubscribed-IsOff :
      (found : Option UserNotificationSettings) (fresh : UserNotificationSettings)
      (ss : List UserNotificationSettings)
      → find (settings_of user_id) ss ≡ found
      → fresh.user_id ≡ user_id
      → fresh.email_enabled ≡ false
      → IsOff (elim found [
        | none ↦ ss ++ (fresh ∷ [])
        | some s ↦ update_where (settings_of user_id) (changed_settings mails_off) ss
      ])
  unsubscribed-IsOff none fresh ss e u f =
      is_marked-find-append_new off (settings_of user_id) ss fresh (rw e) (ground arith)
        (ground arith)
  unsubscribed-IsOff (some s) fresh ss e u f =
      is_marked-find-update off (settings_of user_id) (changed_settings mails_off) ss (λ x. refl)
        (λ x. refl) (rw e)

  unsubscribe_email-Off : (t : Tables) → Off (unsubscribe_email user_id t).1
  unfolding upsert_user_notification_settings get_user_notification_settings
  unsubscribe_email-Off t =
      unsubscribe_email_keeps Lasting-Off user_id t
        (unsubscribed-IsOff (find (settings_of user_id) t.settings) _ t.settings refl refl refl)

  -- After a user unsubscribed, no mail is handed over for the user, whatever happens, until the user
  -- turns mails on in the settings.
  pub unsubscribe_email-mails_to :
      (p : Platform) (es : List Event) (o : Outbox)
      → All (λ e. leaves_off user_id e ≡ true) es
      → count_by (mails_to user_id) (run p es (apply p (unsubscribed user_id) o)).digests
        ≡ count_by (mails_to user_id) o.digests
  unfolding apply
  unsubscribe_email-mails_to p es o g =
      (run-Silent p (count_by (mails_to user_id) o.digests) es (apply p (unsubscribed user_id) o) g
        (unsubscribe_email-Off o.tables, refl)).1
