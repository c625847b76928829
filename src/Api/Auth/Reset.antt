-- ===== src/Api/Auth/Reset.antt =====
-- src/api/auth/router.py: the reset of a password. The bodies of the handlers, behind the limiter.
use kryvaracode.Common.{ℕ, ◌+◌, ◌<◌, ◌≡◌, refl, ap, ◌∙◌, String, false, none, some, arith, eq_self}
use kryvaracode.Core.Exceptions.{Result.ok, Result.raised, http}
use kryvaracode.Core.Security.{Crypto, verify_password, hash_reset_token}
use kryvaracode.Db.Table.{first, get}
use kryvaracode.Db.Table.Laws.{IsKeyed, get-put, get-first, first-put_new, put-put}
use kryvaracode.Db.Models.{User, Database}
use kryvaracode.Db.Users.{get_user_by_email, has_email, set_user, update_user, updated_user}
use kryvaracode.Db.Users.Passwords.{renewed, change_password-accepts}
use kryvaracode.Api.Auth.{store_reset_token, spend_reset_token, holds_reset_token, reset_seconds}

module _ (c : Crypto) where
  -- The user for whom a reset token is stored.
  abbrev pub with_reset_token : ℕ → String → User → User
  with_reset_token now token user = record user {
    hashed_reset_token = some (hash_reset_token c token);
    password_reset_token = none;
    password_reset_expires = some (now + reset_seconds);
  }

  store_reset_token-stores :
      (now : ℕ) (token email : String) (db : Database) (key : ℕ) (user : User)
      → IsKeyed db.users
      → get_user_by_email email db ≡ some (key, user)
      → store_reset_token c now token email db
        ≡ (set_user key (with_reset_token now token user) db, ok tt)
  unfolding store_reset_token get_user_by_email update_user updated_user
  store_reset_token-stores now token email db key user k found =
      let here = get-first (has_email email) db.users k found in ground (arith, here, found)

  spend_reset_token-found :
      (now : ℕ) (salt token password : String) (db : Database) (key : ℕ) (user : User)
      → first (holds_reset_token (hash_reset_token c token) now) db.users ≡ some (key, user)
      → get key db.users ≡ some (key, user)
      → verify_password c password user.hashed_password ≡ false
      → spend_reset_token c now salt token password db
        ≡ (set_user key (renewed c salt password user) db, ok tt)
  unfolding spend_reset_token
  spend_reset_token-found now salt token password db key user found there fresh =
      ground (arith, found, change_password-accepts c salt password db key user there fresh)

  spend_reset_token-absent :
      (now : ℕ) (salt token password : String) (db : Database)
      → first (holds_reset_token (hash_reset_token c token) now) db.users ≡ none
      → spend_reset_token c now salt token password db
        ≡ (db, raised (http 400 "Invalid or expired reset token"))
  unfolding spend_reset_token
  spend_reset_token-absent now salt token password db absent = ground (arith, absent)

  -- A token that was asked for and that nobody else holds sets the password of the account once, within a
  -- day, if the new password is not the old one; whoever presents it again, at whatever time, gets the
  -- error and changes nothing.
  pub spend_reset_token-store_reset_token :
      (now later again : ℕ) (salt salt' token email password other : String) (db : Database)
      (key : ℕ) (user : User)
      → IsKeyed db.users
      → get_user_by_email email db ≡ some (key, user)
      → ((t : ℕ) → first (holds_reset_token (hash_reset_token c token) t) db.users ≡ none)
      → later < now + reset_seconds
      → verify_password c password user.hashed_password ≡ false
      → let asked = (store_reset_token c now token email db).0 in
        let reset = spend_reset_token c later salt token password asked in
        (reset
          ≡ (set_user key (renewed c salt password (with_reset_token now token user)) db, ok tt))
        × (spend_reset_token c again salt' token other reset.0
            ≡ (reset.0, raised (http 400 "Invalid or expired reset token")))
  unfolding get_user_by_email
  spend_reset_token-store_reset_token now later again salt salt' token email password other db key
        user k found apart h fresh =
      let here = get-first (has_email email) db.users k found in
      let stored = store_reset_token-stores now token email db key user k found in
      let user' = with_reset_token now token user in
      let user'' = renewed c salt password user' in
      let db' = set_user key user' db in
      let digest = hash_reset_token c token in
      let holder : first (holds_reset_token digest later) db'.users ≡ some (key, user') = ground (
        arith,
        first-put_new (holds_reset_token digest later) key user' db.users (apart later),
        here,
        eq_self digest,
      ) in
      let there : get key db'.users ≡ some (key, user') =
        ground (arith, get-put key key user' db.users, here) in
      let spent =
        spend_reset_token-found later salt token password db' key user' holder there fresh in
      let twice : set_user key user'' db' ≡ set_user key user'' db =
        ap (λ rows. record db { users = rows }) (put-put key user' user'' db.users) in
      let nobody : first (holds_reset_token digest again) (set_user key user'' db).users ≡ none =
        ground (
          arith,
          first-put_new (holds_reset_token digest again) key user'' db.users (apart again),
        ) in
      let first_time = spent ∙ ap (λ d. (d, ok tt)) twice in
      let reset_db : (spend_reset_token c later salt token password
            (store_reset_token c now token email db).0).0
          ≡ set_user key user'' db =
        rw stored (rw first_time refl) in
      (
        rw stored first_time,
        rw reset_db
            (spend_reset_token-absent again salt' token other (set_user key user'' db) nobody),
      )
