-- ===== src/Auth/Stores/Users.antt =====
-- The user rows.
use flipradar.Base.{
  ℕ, ◌+◌, Bool, true, false, not, ◌&&◌, ◌||◌, Option, none, some, [], ◌∷◌, ◌++◌, Text, text_eq, leb,
  ◌==◌, if◌then◌else◌, find, some_row, update_where, select, length, List,
}
use flipradar.Auth.Rows.{User, Database}
use flipradar.Auth.Platform.{Platform}
use flipradar.Auth.Session.{
  Action, ◌>>=◌, ◌>>◌, pure, query, write, insert_unless, random, duplicate, raise_if,
  multiple_results,
}

-- A character that `str.strip` removes and one that `str.lower` changes, of the ASCII range.
abbrev pub is_space : ℕ → Bool
is_space c = c == 32 || (leb 9 c && leb c 13) || (leb 28 c && leb c 31)

abbrev pub lower_char : ℕ → ℕ
lower_char c = if leb 65 c && leb c 90 then c + 32 else c

abbrev pub lower : Text → Text
lower [] = []
lower (c ∷ s) = lower_char c ∷ lower s

abbrev pub lstrip : Text → Text
lstrip [] = []
lstrip (c ∷ s) = if is_space c then lstrip s else c ∷ s

abbrev pub rstrip : Text → Text
rstrip [] = []
rstrip (c ∷ s) = elim (rstrip s) [ [] ↦ if is_space c then [] else c ∷ [] | d ∷ t ↦ c ∷ d ∷ t ]

-- `str(value).strip().lower()`
unfoldable pub normalize_email_address : Text → Text
normalize_email_address s = lower (rstrip (lstrip s))

abbrev pub pending_is : Text → Option Text → Bool
pending_is s none = false
pending_is s (some t) = text_eq t s

abbrev pub first_of : List User → Option User
first_of [] = none
first_of (u ∷ us) = some u

-- `scalar_one_or_none` raises if there are several rows, of a name that is another user's email.
unfoldable pub get_user_by_username_or_email : Text → Action (Option User)
unfolding normalize_email_address
get_user_by_username_or_email identifier = do
  let normalized = normalize_email_address identifier
  rows ←
      query λ d. select (λ u. text_eq u.username normalized || text_eq u.email normalized) d.users
  raise_if (leb 2 (length rows)) multiple_results
  pure (first_of rows)

unfoldable pub get_user_by_email : Text → Action (Option User)
unfolding normalize_email_address
get_user_by_email email =
    let normalized = normalize_email_address email in
    query λ d. find (λ u. text_eq u.email normalized) d.users

abbrev pub user_is : ℕ → User → Bool
user_is i u = u.id == i

unfoldable pub get_user_by_id : ℕ → Action (Option User)
get_user_by_id i = query λ d. find (user_is i) d.users

abbrev pub change_user : ℕ → (User → User) → Database → Database
change_user i f d = record d { users = update_where (user_is i) f d.users }

-- The row of a new user with its default portfolio. Username and email are unique.
unfoldable pub create_user : Platform → Text → Text → Text → ℕ → Action User
create_user p username display_name email hashed_password = do
  i ← random p
  let user : User = record {
    id = i;
    username = username;
    display_name = some display_name;
    email = email;
    pending_email = none;
    hashed_password = hashed_password;
    is_email_verified = false;
    mfa_enabled = false;
    email_verified_at = none;
    deletion_requested_at = none;
    deletion_scheduled_at = none;
  }
  insert_unless duplicate
      (λ d. some_row (λ u. text_eq u.username username || text_eq u.email email) d.users)
      (λ d. record d {
        users = d.users ++ (user ∷ []);
        default_portfolios = d.default_portfolios ++ (i ∷ []);
      })
  pure user

unfoldable pub update_user_display_name : User → Option Text → Action User
update_user_display_name user display_name = do
  write (change_user user.id λ u. record u { display_name = display_name })
  pure (record user { display_name = display_name })

unfoldable pub mark_user_email_verified : User → ℕ → Action User
mark_user_email_verified user verified_at = do
  write (
      change_user user.id
        λ u. record u { is_email_verified = true; email_verified_at = some verified_at })
  pure (record user { is_email_verified = true; email_verified_at = some verified_at })

unfoldable pub update_user_password_hash : User → ℕ → Action User
update_user_password_hash user hashed_password = do
  write (change_user user.id λ u. record u { hashed_password = hashed_password })
  pure (record user { hashed_password = hashed_password })

unfoldable pub schedule_user_deletion : User → ℕ → ℕ → Action User
schedule_user_deletion user requested_at scheduled_at = do
  write (
      change_user user.id λ u. record u {
        deletion_requested_at = some requested_at;
        deletion_scheduled_at = some scheduled_at;
      })
  pure (record user {
    deletion_requested_at = some requested_at;
    deletion_scheduled_at = some scheduled_at;
  })

unfoldable pub update_user_mfa_enabled : User → Bool → Action User
update_user_mfa_enabled user enabled = do
  write (change_user user.id λ u. record u { mfa_enabled = enabled })
  pure (record user { mfa_enabled = enabled })

-- The pending email is unique among the pending ones.
unfoldable pub stage_user_email_change : User → Text → Action User
stage_user_email_change user pending_email = do
  insert_unless duplicate
      (λ d.
        some_row (λ u. not (user_is user.id u) && pending_is pending_email u.pending_email) d.users)
      (change_user user.id λ u. record u { pending_email = some pending_email })
  pure (record user { pending_email = some pending_email })

-- The email is unique among the emails.
unfoldable pub apply_user_email_change : User → Text → ℕ → Action User
apply_user_email_change user new_email verified_at = do
  insert_unless duplicate
      (λ d. some_row (λ u. not (user_is user.id u) && text_eq u.email new_email) d.users)
      (change_user user.id λ u. record u {
        email = new_email;
        pending_email = none;
        is_email_verified = true;
        email_verified_at = some verified_at;
      })
  pure (record user {
    email = new_email;
    pending_email = none;
    is_email_verified = true;
    email_verified_at = some verified_at;
  })

-- Scheduled for an instant that has come.
abbrev pub deletion_due : ℕ → User → Bool
deletion_due now u = elim u.deletion_scheduled_at [ none ↦ false | some t ↦ leb t now ]

-- The deletion cascades to the rows of the deleted users. The result is how many users went.
unfoldable pub delete_users_scheduled_for_deletion : ℕ → Action ℕ
delete_users_scheduled_for_deletion now = do
  due ← query λ d. select (deletion_due now) d.users
  let owner_due = λ (i : ℕ). some_row (user_is i) due
  write λ d. record d {
    users = select (λ u. not (deletion_due now u)) d.users;
    default_portfolios = select (λ i. not (owner_due i)) d.default_portfolios;
    account_tokens = select (λ t. not (owner_due t.user_id)) d.account_tokens;
    sessions = select (λ t. not (owner_due t.user_id)) d.sessions;
    blacklist = select (λ t. not (owner_due t.user_id)) d.blacklist;
    challenges = select (λ t. not (owner_due t.user_id)) d.challenges;
    questions = select (λ t. not (owner_due t.user_id)) d.questions;
    mfa_blacklist = select (λ t. not (owner_due t.user_id)) d.mfa_blacklist;
  }
  pure (length due)
