-- ===== src/Db/Users/Tests.antt =====
-- A database with two users for crud.py.
use kryvaracode.Common.{ℕ, ◌≤◌, ◌≡◌, refl, false, none, some, List, [], ◌∷◌, arith}
use kryvaracode.Core.Security.{get_password_hash, verify_password}
use kryvaracode.Core.Security.Unary.{unary_crypto, unary_crypto-IsSound}
use kryvaracode.Db.Models.{User, Database, empty_database}
use kryvaracode.Db.Table.{first, put}
use kryvaracode.Db.Users.{
  new_user, max_attempts, change_password, authenticate_user, logged_in, get_user_by_username,
  failed_login,
}
use kryvaracode.Db.Users.Lockout.{Attempt, compared, is_compared}
use kryvaracode.Db.Users.Guesses.{compared-le_max_attempts}
use kryvaracode.Db.Users.Passwords.{renewed, authenticate_user-change_password}

abbrev ann : User
unfolding new_user
ann = new_user "ann@x" "ann" (get_password_hash unary_crypto "" "One!") none

abbrev bob : User
unfolding new_user
bob = new_user "bob@x" "bob" (get_password_hash unary_crypto "" "Two!") none

abbrev two_users : Database
unfolding empty_database
two_users = record empty_database { users = (1, ann) ∷ (2, bob) ∷ [] }

abbrev try_ann : ℕ → Attempt
try_ann now = record { now = now; username = "ann"; password = "guess" }

abbrev seven_attempts : List Attempt
seven_attempts =
    try_ann 10 ∷ try_ann 20 ∷ try_ann 30 ∷ try_ann 40 ∷ try_ann 50 ∷ try_ann 60 ∷ try_ann 70 ∷ []

abbrev changed : Database
changed = (change_password unary_crypto "" 2 "New!" two_users).0

computed :
    (compared unary_crypto "ann" seven_attempts two_users ≡ 5)
    × ((authenticate_user unary_crypto 7 "bob" "Two!" changed).1 ≡ none)
unfolding compared is_compared authenticate_user change_password get_user_by_username first put
    two_users ann bob verify_password get_password_hash unary_crypto failed_login new_user
    empty_database
computed = (refl, refl)

compared-le_max_attempts_example :
    (compared unary_crypto "ann" seven_attempts two_users ≤ max_attempts)
    × ((a : Attempt) (db' : Database)
        → is_compared unary_crypto a db' ≡ false
        → authenticate_user unary_crypto a.now a.username a.password db' ≡ (db', none))
unfolding two_users ann bob first get_user_by_username verify_password get_password_hash
    unary_crypto new_user
compared-le_max_attempts_example =
    compared-le_max_attempts unary_crypto "ann" seven_attempts 10 two_users 1 ann (refl, (refl, tt))
      refl
      (
        (omega arith, omega arith, λ _. refl),
        (
          (omega arith, omega arith, λ _. refl),
          (
            (omega arith, omega arith, λ _. refl),
            (
              (omega arith, omega arith, λ _. refl),
              (
                (omega arith, omega arith, λ _. refl),
                (
                  (omega arith, omega arith, λ _. refl),
                  ((omega arith, omega arith, λ _. refl), tt),
                ),
              ),
            ),
          ),
        ),
      )

authenticate_user-change_password_example :
    ((authenticate_user unary_crypto 7 "bob" "New!" changed).1
      ≡ some (2, logged_in (renewed unary_crypto "" "New!" bob)))
    × ((authenticate_user unary_crypto 7 "bob" "Two!" changed).1 ≡ none)
unfolding two_users ann bob first get_user_by_username verify_password get_password_hash
    unary_crypto new_user
authenticate_user-change_password_example =
    authenticate_user-change_password unary_crypto unary_crypto-IsSound 7 "" "bob" "New!" "Two!"
      two_users 2 bob (refl, (refl, tt)) refl refl refl refl
