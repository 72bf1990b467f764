-- ===== src/Notifications/Delivered.antt =====
-- A delivery leaves nothing to be mailed.
use flipradar.Notifications.Stores.{pending}
use flipradar.Notifications.Digest.{quiet_hours_active, Platform, was_sent, Outbox}
use flipradar.Notifications.Rows.{Tables}
use flipradar.Base.{ℕ, List, count_by, ◌≡◌, All, false, true, some}

abbrev awaiting : ℕ → Tables → ℕ
awaiting v t = count_by (pending v) t.notifications

module _ (p : Platform) (now : ℕ)
    (sends : (n u : ℕ) (ids : List ℕ) → was_sent (p.send n u ids) ≡ true) where
  abbrev IsLoud : Outbox → Type 0
  IsLoud o = All (λ s. quiet_hours_active p (some s) now ≡ false) o.tables.settings
