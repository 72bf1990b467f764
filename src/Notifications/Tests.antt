-- ===== src/Notifications/Tests.antt =====
-- A user with a watched item, on whom the theorems about notifications are applied.
use flipradar.Notifications.Reading.{mark_all_read-unread_count, between_times-elapsed}
use flipradar.Base.Int.{pos}
use flipradar.Notifications.Distinct.{repeats, run-repeats}
use flipradar.Notifications.Mailed.{delivers, run-delivers}
use flipradar.Notifications.Silenced.{mails_to, unsubscribe_email-mails_to}
use flipradar.Notifications.Inbox.{mark_all_read}
use flipradar.Notifications.Rows.{DedupeKey, Observation, price_drop, active, prices}
use flipradar.Notifications.Digest.{between_times, Outbox, Platform, day}
use flipradar.Notifications.Steps.{
  apply, run, Event, observed, set_preference, unsubscribed, start, mailed,
}
use flipradar.Notifications.Stores.{PreferenceUpdate, unread_notification_count}
use flipradar.Base.{
  count_by, List, length, some, ◌≡◌, none, ltb, true, ◌∷◌, ◌+◌, ◌≤◌, refl, [], ◌-◌, ◌%◌, arith,
}

abbrev mail_service : Platform
mail_service = record {
  zone_time = λ zone now. none;
  send = λ n u ids. some (record { attempted = true; sent = true });
}

abbrev before : Observation
before = record {
  id = 1;
  listing_price = some 10_000;
  listing_status = some active;
  deal_score = some 6_000;
  target_price = some 9_000;
}

abbrev after : Observation
after = record {
  id = 2;
  listing_price = some 8_000;
  listing_status = some active;
  deal_score = some 8_000;
  target_price = some 9_000;
}

abbrev by_mail : PreferenceUpdate
by_mail = record { in_app_enabled = none; email_enabled = some true }

-- The price drop is to be mailed as well; the same is observed twice.
abbrev week : List Event
week =
    set_preference 7 price_drop by_mail
    ∷ observed 7 40 before after (pos 1_000)
    ∷ observed 7 40 before (record after { id = 3 }) (pos 1_000)
    ∷ mailed 5
    ∷ mailed 6
    ∷ []

abbrev drop_key : DedupeKey
drop_key = record { item = 40; notification_type = price_drop; payload = prices 10_000 8_000 }

-- Three notifications in the first observation, none in the second, one of them mailed once.
three_created :
    (length (run mail_service week start).tables.notifications ≡ 3)
    × (length (run mail_service week start).digests ≡ 1)
unfolding run
three_created = (refl, refl)

run-repeats_example :
    count_by (repeats 7 drop_key) (run mail_service week start).tables.notifications ≤ 1
run-repeats_example = run-repeats mail_service week 7 drop_key

run-delivers_example : count_by (delivers 0) (run mail_service week start).digests ≤ 1
run-delivers_example = run-delivers mail_service week 0

-- The mail that is waiting, before it is sent.
abbrev waiting : Outbox
waiting =
    apply mail_service (observed 7 40 before after (pos 1_000))
      (apply mail_service (set_preference 7 price_drop by_mail) start)

unsubscribe_email-mails_to_example :
    count_by
      (mails_to 7)
      (run mail_service week (apply mail_service (unsubscribed 7) waiting)).digests
    ≡ count_by (mails_to 7) waiting.digests
unsubscribe_email-mails_to_example =
    unsubscribe_email-mails_to 7 mail_service week waiting
      (refl, (refl, (refl, (refl, (refl, tt)))))

mark_all_read-unread_count_example :
    let (count, t') = mark_all_read 7 9 waiting.tables in
    (count ≡ unread_notification_count 7 waiting.tables)
    × (unread_notification_count 7 t' ≡ 0)
    × (unread_notification_count 8 t' ≡ unread_notification_count 8 waiting.tables)
mark_all_read-unread_count_example = mark_all_read-unread_count 7 8 9 waiting.tables refl

between_times-elapsed_example :
    between_times 79_200_000_000 25_200_000_000 3_600_000_000
    ≡ ltb
        ((3_600_000_000 + day - 79_200_000_000) % day)
        ((25_200_000_000 + day - 79_200_000_000) % day)
between_times-elapsed_example =
    between_times-elapsed 79_200_000_000 25_200_000_000 3_600_000_000 (omega arith) (omega arith)
      (omega arith) refl
