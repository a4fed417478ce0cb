-- ===== src/UserService/Tests.antt =====
-- A user who registers and logs in.
use mern_chat_app.Common.{codes, ◌≡◌, refl, arith, ◌∷◌, text_eq, text_eq_refl}
use mern_chat_app.Database.{World, User}
use mern_chat_app.Database.Samples.{sample_runtime, sample_world}
use mern_chat_app.Errors.{ok}
use mern_chat_app.UserService.{Crypto, RegisterUserInput, register_user, authenticate_user}
use mern_chat_app.UserService.Accounts.{register-authenticate}

-- A hash that keeps the password behind a mark.
abbrev plain_crypto : Crypto
plain_crypto = record { lower = λ s. s; hash = λ s. 36 ∷ s; compare = λ p h. text_eq (36 ∷ p) h }

abbrev new_account : RegisterUserInput
new_account = record {
  fullname = codes " Ann Lee ";
  email = codes "ann@b.c";
  password = codes "password1";
  confirm_password = codes "password1";
}

abbrev ann : User
ann = record {
  id = 100;
  fullname = codes "Ann Lee";
  email = codes "ann@b.c";
  password_hash = codes "$password1";
  created_at = 1_000;
  updated_at = 1_000;
}

registers : (register_user sample_runtime plain_crypto new_account sample_world).0 ≡ ok ann
unfolding register_user mern_chat_app.UserService.is_rejected
    mern_chat_app.UserService.normalize_email mern_chat_app.UserService.register_new
    mern_chat_app.Users.find_user_by_normalized_email mern_chat_app.Users.create_user
    mern_chat_app.Database.query mern_chat_app.Database.random_uuid
registers = refl

abbrev next_day : World
next_day = record sample_world {
  db = (register_user sample_runtime plain_crypto new_account sample_world).1.db;
}

register-authenticate_example :
    (authenticate_user sample_runtime plain_crypto (codes "ann@b.c") (codes "password1") next_day).0
    ≡ ok ann
register-authenticate_example =
    register-authenticate sample_runtime plain_crypto new_account sample_world next_day ann
      (λ p. text_eq_refl (36 ∷ p)) (omega arith) registers refl refl
