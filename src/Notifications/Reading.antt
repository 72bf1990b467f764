-- ===== src/Notifications/Reading.antt =====
-- Reading all notifications, and the quiet hours as time around the clock.
use flipradar.Notifications.Rows.{Tables}
use flipradar.Notifications.Stores.{unread_notification_count, unread, read_by}
use flipradar.Notifications.Digest.{day, between_times}
use flipradar.Notifications.Inbox.{mark_all_read}
use flipradar.Base.{
  ℕ, ◌<◌, Bool, List, ◌≡◌, ◌==◌, false, true, count_by, count_by-update_where_none, update_where,
  ltb, ◌+◌, ◌∷◌, arith, ◌-◌, [], ◌%◌, refl,
}

count_by-update_where_apart :
    {A : Type 0} (p q : A → Bool) (f : A → A) (xs : List A)
    → ((x : A) → q x ≡ true → (p x ≡ false) × (p (f x) ≡ false))
    → count_by p (update_where q f xs) ≡ count_by p xs
count_by-update_where_apart p q f [] e = refl
count_by-update_where_apart p q f (x ∷ xs) e =
    ground (arith, e x, count_by-update_where_apart p q f xs e)

-- `mark_all_read` tells how many notifications were unread, leaves none of them unread, and leaves the
-- number of every other user as it was.
pub mark_all_read-unread_count :
    (user_id other now : ℕ) (t : Tables)
    → (user_id == other) ≡ false
    → let (count, t') = mark_all_read user_id now t in
      (count ≡ unread_notification_count user_id t)
      × (unread_notification_count user_id t' ≡ 0)
      × (unread_notification_count other t' ≡ unread_notification_count other t)
unfolding mark_all_read unread_notification_count
mark_all_read-unread_count user_id other now t e = (
  refl,
  count_by-update_where_none (unread user_id) (read_by now) t.notifications (λ n. ground arith),
  count_by-update_where_apart (unread other) (unread user_id) (read_by now) t.notifications
      (λ n k. (ground arith, ground arith)),
)

-- Quiet hours are active exactly when less time has passed since their start, around the clock, than
-- they last.
pub between_times-elapsed :
    (start end time : ℕ)
    → start < day
    → end < day
    → time < day
    → (start == end) ≡ false
    → between_times start end time ≡ ltb ((time + day - start) % day) ((end + day - start) % day)
between_times-elapsed start end time a b c d = ground arith
