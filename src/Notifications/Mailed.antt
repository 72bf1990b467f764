-- ===== src/Notifications/Mailed.antt =====
-- No notification is mailed twice.
use flipradar.Auth.Platform.{EmailSendResult}
use flipradar.Notifications.Steps.{
  apply, Event, run, start, observed, read_one, read_all, set_preference, set_settings,
  unsubscribed, mailed,
}
use flipradar.Notifications.Digest.{
  Digest, ids_of, Platform, after_send, Outbox, send_digest, deliver_pending_email_digests,
  deliver_user, was_sent, audit_each,
}
use flipradar.Notifications.Rows.{
  Notification, Tables, NotificationType, EventKey, DedupeKey, event_key_eq, delivery_failed,
  delivered, AuditEvent, delivery_deferred,
}
use flipradar.Notifications.Keeps.{
  Lasting, rows_Lasting, one_of, deliver_user_keeps, audit_each_keeps,
  emit_watchlist_notifications_keeps, mark_read_keeps, mark_all_read_keeps, update_preference_keeps,
  update_notification_settings_keeps, unsubscribe_email_keeps, deliver_users_keeps,
}
use flipradar.Notifications.Stores.{
  create_notification, has, read_by, without_mail, has_dedupe_key, mailed_by, pending,
  mark_notification_emails_sent, list_pending_notification_emails,
  upsert_user_notification_settings, list_users_with_pending_notification_emails,
}
use flipradar.Base.{
  ℕ, List, count_by, ◌++◌, Bool, leb, ◌≡◌, ◌∷◌, ◌&&◌, ◌==◌, not, [], true, ◌≤◌, ◌+◌, select, arith,
  is_some, ◌<◌, update_where, Bool-cases, refl, count_by-append, false, inl, inr, some_row, none,
  if◌then◌else◌, subst, Option, some, count_by-update_where_zero,
}

-- A row of an identifier that was not mailed.
abbrev unsent : ℕ → Notification → Bool
unsent id n = n.id == id && not (is_some n.email_sent_at)

-- A mail that was sent and has the notification.
abbrev pub delivers : ℕ → Digest → Bool
delivers id d = d.sent && has id d.ids

module _ (id : ℕ) where
  -- Rows have identifiers that were given out; once a mail has a notification, it is marked.
  record Marked (sent : ℕ) (ns : List Notification) (next : ℕ) : Type 0 where
    given_out : count_by (λ n. leb next n.id) ns ≡ 0
    at_most_one : sent ≤ 1
    marked : sent ≡ 1 → (count_by (unsent id) ns ≡ 0) × (id < next)

  Marked-rows :
      (sent : ℕ) (q : Notification → Bool) (f : Notification → Notification)
      (ns : List Notification) (next : ℕ)
      → ((n : Notification) → (f n).id ≡ n.id)
      → ((n : Notification) → unsent id (f n) ≡ true → unsent id n ≡ true)
      → Marked sent ns next
      → Marked sent (update_where q f ns) next
  Marked-rows sent q f ns next e u h = record {
    given_out =
        count_by-update_where_zero (λ n. leb next n.id) q f ns (λ n k. rw (← (e n)) k) h.given_out;
    at_most_one = h.at_most_one;
    marked = λ k. (count_by-update_where_zero (unsent id) q f ns u (h.marked k).0, (h.marked k).1);
  }

  abbrev Safe : ℕ → Tables → Type 0
  Safe sent t = Marked sent t.notifications t.next_id

  Lasting-Safe : (sent : ℕ) → Lasting (Safe sent)
  Lasting-Safe sent =
      rows_Lasting (Marked sent)
        (λ q at ns next. Marked-rows sent q (read_by at) ns next (λ n. refl) (λ n k. k))
        (λ q ns next. Marked-rows sent q without_mail ns next (λ n. refl) (λ n k. k))
        (λ q at ns next.
          Marked-rows sent q (mailed_by at) ns next (λ n. refl) (λ n k. ground arith))

  above :
      (next : ℕ) (ns : List Notification)
      → count_by (λ n. leb next n.id) ns ≡ 0
      → count_by (λ n. leb (next + 1) n.id) ns ≡ 0
  above next [] h = refl
  above next (n ∷ ns) h = ground (arith, above next ns)

  Marked-add :
      (sent : ℕ) (n : Notification) (ns : List Notification)
      → Marked sent ns n.id
      → Marked sent (ns ++ (n ∷ [])) (n.id + 1)
  Marked-add sent n ns h = record {
    given_out =
        ground (
          arith,
          count_by-append (λ m. leb (n.id + 1) m.id) ns (n ∷ []),
          above n.id ns h.given_out,
        );
    at_most_one = h.at_most_one;
    marked = λ k. (
      ground (arith, count_by-append (unsent id) ns (n ∷ []), h.marked k),
      ground (arith, h.marked k),
    );
  }

  create_notification-Safe :
      (sent user : ℕ) (kind : NotificationType) (event : EventKey) (k : DedupeKey)
      (in_app email : Bool) (t : Tables)
      → Unit {0}
      → has_dedupe_key user k t ≡ false
      → Safe sent t
      → Safe sent (create_notification user kind event k in_app email t).1
  unfolding create_notification
  create_notification-Safe sent user kind event k in_app email t _ fresh h =
      one_of (Safe sent) (some_row (λ n. event_key_eq n.event_key event) t.notifications) (none, t)
        _ h (Marked-add sent _ t.notifications h)

  -- What is in a mail was pending.
  has-ids_of :
      (u : ℕ) (ns : List Notification)
      → count_by (unsent id) ns ≡ 0
      → has id (ids_of (select (pending u) ns)) ≡ false
  has-ids_of u [] h = refl
  has-ids_of u (n ∷ ns) h = ground (arith, has-ids_of u ns)

  has-ids_of_given :
      (u next : ℕ) (ns : List Notification)
      → count_by (λ n. leb next n.id) ns ≡ 0
      → has id (ids_of (select (pending u) ns)) ≡ true
      → id < next
  has-ids_of_given u next [] h k = cc
  has-ids_of_given u next (n ∷ ns) h k = ground (arith, has-ids_of_given u next ns)

  unsent-mark :
      (ids : List ℕ) (at : ℕ) (ns : List Notification)
      → has id ids ≡ true
      → count_by (unsent id) (update_where (λ n. has n.id ids) (mailed_by at) ns) ≡ 0
  unsent-mark ids at [] h = refl
  unsent-mark ids at (n ∷ ns) h = elim (Bool-cases (n.id == id)) [
    | inl e ↦
        let same : n.id ≡ id = ground arith in
        let there : has n.id ids ≡ true = rw same h in ground (arith, unsent-mark ids at ns h)
    | inr e ↦ ground (arith, unsent-mark ids at ns h)
  ]

  -- One more mail, with what was pending of a user.
  Marked-sent :
      (old u at : ℕ) (ns : List Notification) (next : ℕ)
      → Marked old ns next
      → let ids = ids_of (select (pending u) ns) in
        Marked
          (old + (if has id ids then 1 else 0))
          (update_where (λ n. has n.id ids) (mailed_by at) ns)
          next
  Marked-sent old u at ns next h =
      let ids : List ℕ = ids_of (select (pending u) ns) in
      let kept : Marked old (update_where (λ n. has n.id ids) (mailed_by at) ns) next =
        Marked-rows old (λ n. has n.id ids) (mailed_by at) ns next (λ n. refl) (λ n k. ground arith)
          h in
      elim (Bool-cases (has id ids)) [
        | inl e ↦ record {
          given_out = kept.given_out;
          at_most_one = ground (arith, h.marked, has-ids_of u ns);
          marked = λ k. (unsent-mark ids at ns e, has-ids_of_given u next ns h.given_out e);
        }
        | inr e ↦ rw e (
            subst (λ k. Marked k (update_where (λ n. has n.id ids) (mailed_by at) ns) next)
              (omega arith) kept)
      ]

  abbrev SafeSent : Outbox → Type 0
  SafeSent o = Safe (count_by (delivers id) o.digests) o.tables

  -- The mail that was handed over is counted by whether it was sent.
  counted :
      (ds : List Digest) (d : Digest) (k : ℕ) (t : Tables)
      → (if delivers id d then 1 else 0) ≡ k
      → Safe (count_by (delivers id) ds + k) t
      → Safe (count_by (delivers id) (ds ++ (d ∷ []))) t
  counted ds d k t e h =
      subst (λ n. Safe n t) (omega (arith, count_by-append (delivers id) ds (d ∷ []), one d, e)) h
    where
      one : (d : Digest) → count_by (delivers id) (d ∷ []) ≡ (if delivers id d then 1 else 0)
      one d = omega arith

  after_send-Safe :
      (u now : ℕ) (r : Option EmailSendResult) (ds : List Digest) (t : Tables)
      → Safe (count_by (delivers id) ds) t
      → let ids = ids_of (select (pending u) t.notifications) in
        let digest : Digest = record { user_id = u; ids = ids; sent = was_sent r } in
        Safe (count_by (delivers id) (ds ++ (digest ∷ []))) (after_send u ids now r t).1
  unfolding after_send mark_notification_emails_sent
  after_send-Safe u now none ds t h =
      let ids : List ℕ = ids_of (select (pending u) t.notifications) in
      counted ds (record { user_id = u; ids = ids; sent = false }) 0
        (audit_each u delivery_failed ids t) refl
        (audit_each_keeps (Lasting-Safe (count_by (delivers id) ds + 0)) u delivery_failed ids t
          (subst (λ n. Safe n t) (omega arith) h))
  after_send-Safe u now (some r) ds t h =
      let ids : List ℕ = ids_of (select (pending u) t.notifications) in
      let old : ℕ = count_by (delivers id) ds in
      let one : ℕ = if has id ids then 1 else 0 in
      let marked : Tables = mark_notification_emails_sent ids now t in
      let event : AuditEvent = if r.attempted then delivery_failed else delivery_deferred in
      elim (Bool-cases r.sent) [
        | inl e ↦ rw e (
            counted ds (record { user_id = u; ids = ids; sent = true }) one
              (audit_each u delivered ids marked) refl
              (audit_each_keeps (Lasting-Safe (old + one)) u delivered ids marked
                (Marked-sent old u now t.notifications t.next_id h)))
        | inr e ↦ rw e (
            counted ds (record { user_id = u; ids = ids; sent = false }) 0
              (audit_each u event ids t) refl
              (audit_each_keeps (Lasting-Safe (old + 0)) u event ids t
                (subst (λ n. Safe n t) (omega arith) h)))
      ]

  module _ (p : Platform) where
    deliver_user-Safe : (now u : ℕ) (o : Outbox) → SafeSent o → SafeSent (deliver_user p now u o).1
    unfolding send_digest list_pending_notification_emails
    deliver_user-Safe now u o h =
        deliver_user_keeps p SafeSent now u o h ((Lasting-Safe _).disable u none o.tables h)
          (λ on. after_send-Safe u now _ o.digests o.tables h)

    apply-Safe : (e : Event) (o : Outbox) → SafeSent o → SafeSent (apply p e o)
    unfolding apply deliver_pending_email_digests upsert_user_notification_settings
    apply-Safe (observed u item previous current threshold) o h =
        emit_watchlist_notifications_keeps (Lasting-Safe _) u (λ _. Unit {0})
          (create_notification-Safe _ u) item previous current threshold o.tables (λ _. tt) h
    apply-Safe (read_one u n now) o h = mark_read_keeps (Lasting-Safe _) u n now o.tables h
    apply-Safe (read_all u now) o h = mark_all_read_keeps (Lasting-Safe _) u now o.tables h
    apply-Safe (set_preference u kind x) o h =
        update_preference_keeps (Lasting-Safe _) u kind x o.tables h
    apply-Safe (set_settings u x) o h =
        update_notification_settings_keeps (Lasting-Safe _) u x o.tables h
    apply-Safe (unsubscribed u) o h = unsubscribe_email_keeps (Lasting-Safe _) u o.tables h
    apply-Safe (mailed now) o h =
        deliver_users_keeps p SafeSent now (list_users_with_pending_notification_emails o.tables) o
          (λ u o k. deliver_user-Safe now u o k) h

    run-Safe : (es : List Event) (o : Outbox) → SafeSent o → SafeSent (run p es o)
    unfolding run
    run-Safe [] o h = h
    run-Safe (e ∷ es) o h = run-Safe es (apply p e o) (apply-Safe e o h)

-- However the service is used from its start, no notification is in two mails that were sent.
pub run-delivers :
    (p : Platform) (es : List Event) (id : ℕ) → count_by (delivers id) (run p es start).digests ≤ 1
run-delivers p es id =
    (run-Safe id p es start (record {
      given_out = refl;
      at_most_one = omega arith;
      marked = λ k. omega (arith, k);
    })).at_most_one
