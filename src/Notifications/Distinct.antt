-- ===== src/Notifications/Distinct.antt =====
-- No user is notified twice of the same.
use flipradar.Notifications.Steps.{
  Event, run, apply, start, observed, read_one, read_all, set_preference, set_settings,
  unsubscribed, mailed,
}
use flipradar.Notifications.Digest.{
  Platform, Outbox, deliver_pending_email_digests, deliver_user, ids_of,
}
use flipradar.Notifications.Keeps.{
  Lasting, rows_Lasting, deliver_user_keeps, one_of, emit_watchlist_notifications_keeps,
  mark_read_keeps, mark_all_read_keeps, update_preference_keeps, update_notification_settings_keeps,
  unsubscribe_email_keeps, deliver_users_keeps, send_digest_keeps,
}
use flipradar.Notifications.Stores.{
  create_notification, has_dedupe_key, read_by, without_mail, upsert_user_notification_settings,
  mailed_by, list_pending_notification_emails, list_users_with_pending_notification_emails,
}
use flipradar.Notifications.Rows.{
  ListingStatus, DedupeKey, Payload, NotificationType, dedupe_key_eq, Notification, status_eq,
  Tables, payload_eq, notification_type_eq, option_eq, prices, price_drop, reached, active, sold,
  target_reached, ended, ended_listing, removed, deal_score, became, EventKey, scores, event_key_eq,
}
use flipradar.Base.{
  ℕ, Option, Bool, List, ◌==◌, count_by, ◌≡◌, some_row, ◌≤◌, false, ◌&&◌, true, arith, ◌++◌,
  update_where, ◌∷◌, [], count_by-update_where, Bool-cases, inl, subst, count_by-append, refl, inr,
  ap, none,
}

notification_type_eq_sound : (a b : NotificationType) → notification_type_eq a b ≡ true → a ≡ b
notification_type_eq_sound price_drop b h = ground arith
notification_type_eq_sound target_reached b h = ground arith
notification_type_eq_sound ended_listing b h = ground arith
notification_type_eq_sound deal_score b h = ground arith

status_eq_sound : (a b : ListingStatus) → status_eq a b ≡ true → a ≡ b
status_eq_sound active b h = ground arith
status_eq_sound sold b h = ground arith
status_eq_sound ended b h = ground arith
status_eq_sound removed b h = ground arith

option_eq_sound : (a b : Option ℕ) → option_eq a b ≡ true → a ≡ b
option_eq_sound a b h = ground arith

payload_eq_sound : (a b : Payload) → payload_eq a b ≡ true → a ≡ b
payload_eq_sound (prices a b) c h = ground arith
payload_eq_sound (reached a b) c h = ground arith
payload_eq_sound (became a) (became b) h = ap became (status_eq_sound a b h)
payload_eq_sound (became a) (prices b c) h = cc
payload_eq_sound (became a) (reached b c) h = cc
payload_eq_sound (became a) (scores b c) h = cc
payload_eq_sound (scores a b) (scores c d) h = ground (arith, option_eq_sound a c)
payload_eq_sound (scores a b) c h = ground arith

pub dedupe_key_eq_sound : (a b : DedupeKey) → dedupe_key_eq a b ≡ true → a ≡ b
dedupe_key_eq_sound a b h = ground (
  arith,
  notification_type_eq_sound a.notification_type b.notification_type,
  payload_eq_sound a.payload b.payload,
)

-- A row for a user with a key.
abbrev pub repeats : ℕ → DedupeKey → Notification → Bool
repeats user_id key n = n.user_id == user_id && dedupe_key_eq n.dedupe_key key

count_by_none :
    {A : Type 0} (p : A → Bool) (xs : List A) → some_row p xs ≡ false → count_by p xs ≡ 0
count_by_none p [] h = refl
count_by_none p (x ∷ xs) h = ground (arith, count_by_none p xs)

module _ (user_id : ℕ) (key : DedupeKey) where
  abbrev Once : Tables → Type 0
  Once t = count_by (repeats user_id key) t.notifications ≤ 1

  kept :
      (q : Notification → Bool) (f : Notification → Notification) (ns : List Notification)
      → ((n : Notification) → repeats user_id key (f n) ≡ repeats user_id key n)
      → count_by (repeats user_id key) ns ≤ 1
      → count_by (repeats user_id key) (update_where q f ns) ≤ 1
  kept q f ns e h = rw (count_by-update_where (repeats user_id key) q f ns e) h

  Lasting-Once : Lasting Once
  Lasting-Once =
      rows_Lasting (λ ns next. count_by (repeats user_id key) ns ≤ 1)
        (λ q at ns next h. kept q (read_by at) ns (λ n. refl) h)
        (λ q ns next h. kept q without_mail ns (λ n. refl) h)
        (λ q at ns next h. kept q (mailed_by at) ns (λ n. refl) h)

  -- One more row, whose key the user has no row of.
  one_more :
      (n : Notification) (ns : List Notification)
      → some_row (repeats n.user_id n.dedupe_key) ns ≡ false
      → count_by (repeats user_id key) ns ≤ 1
      → count_by (repeats user_id key) (ns ++ (n ∷ [])) ≤ 1
  one_more n ns fresh h = elim (Bool-cases (repeats user_id key n)) [
    | inl e ↦
        let same : n.dedupe_key ≡ key = dedupe_key_eq_sound n.dedupe_key key (ground arith) in
        let user : n.user_id ≡ user_id = ground arith in
        let none_yet : count_by (repeats user_id key) ns ≡ 0 =
          count_by_none (repeats user_id key) ns (
            subst (λ k. some_row (repeats user_id k) ns ≡ false) same
              (subst (λ u. some_row (repeats u n.dedupe_key) ns ≡ false) user fresh)) in
        ground (arith, count_by-append (repeats user_id key) ns (n ∷ []))
    | inr e ↦ ground (arith, count_by-append (repeats user_id key) ns (n ∷ []))
  ]

  create_notification-Once :
      (user : ℕ) (kind : NotificationType) (event : EventKey) (k : DedupeKey) (in_app email : Bool)
      (t : Tables)
      → Unit {0}
      → has_dedupe_key user k t ≡ false
      → Once t
      → Once (create_notification user kind event k in_app email t).1
  unfolding create_notification has_dedupe_key
  create_notification-Once user kind event k in_app email t _ fresh h =
      one_of Once (some_row (λ n. event_key_eq n.event_key event) t.notifications) (none, t) _ h
        (one_more _ t.notifications fresh h)

  module _ (p : Platform) where
    abbrev OnceSent : Outbox → Type 0
    OnceSent o = Once o.tables

    deliver_user-Once : (now u : ℕ) (o : Outbox) → OnceSent o → OnceSent (deliver_user p now u o).1
    deliver_user-Once now u o h =
        deliver_user_keeps p OnceSent now u o h (Lasting-Once.disable u none o.tables h) (λ on.
          send_digest_keeps Lasting-Once p now u
            (ids_of (list_pending_notification_emails u o.tables)) o h)

    apply-Once : (e : Event) (o : Outbox) → OnceSent o → OnceSent (apply p e o)
    unfolding apply deliver_pending_email_digests upsert_user_notification_settings
    apply-Once (observed u item previous current threshold) o h =
        emit_watchlist_notifications_keeps Lasting-Once u (λ _. Unit {0})
          (create_notification-Once u) item previous current threshold o.tables (λ _. tt) h
    apply-Once (read_one u id now) o h = mark_read_keeps Lasting-Once u id now o.tables h
    apply-Once (read_all u now) o h = mark_all_read_keeps Lasting-Once u now o.tables h
    apply-Once (set_preference u kind x) o h =
        update_preference_keeps Lasting-Once u kind x o.tables h
    apply-Once (set_settings u x) o h =
        update_notification_settings_keeps Lasting-Once u x o.tables h
    apply-Once (unsubscribed u) o h = unsubscribe_email_keeps Lasting-Once u o.tables h
    apply-Once (mailed now) o h =
        deliver_users_keeps p OnceSent now (list_users_with_pending_notification_emails o.tables) o
          (λ u o k. deliver_user-Once now u o k) h

    run-Once : (es : List Event) (o : Outbox) → OnceSent o → OnceSent (run p es o)
    unfolding run
    run-Once [] o h = h
    run-Once (e ∷ es) o h = run-Once es (apply p e o) (apply-Once e o h)

-- However the service is used from its start, no user has two notifications of the same item, type
-- and content.
pub run-repeats :
    (p : Platform) (es : List Event) (user_id : ℕ) (key : DedupeKey)
    → count_by (repeats user_id key) (run p es start).tables.notifications ≤ 1
run-repeats p es user_id key = run-Once user_id key p es start (omega arith)
