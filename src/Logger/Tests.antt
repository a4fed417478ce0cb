-- ===== src/Logger/Tests.antt =====
-- A password inside the metadata of a log line.
use mern_chat_app.Common.{codes, ◌≡◌, refl, some, []}
use mern_chat_app.Logger.{
  LogValue, LogSettings, text, object, field, end, array, cons, nil, info, sanitize_value,
  normalize_key, redacted, write,
}
use mern_chat_app.Logger.Redaction.{replace, write_hides}

abbrev login_metadata : LogValue
login_metadata = object (
    field (codes "user") (text (codes "ann")) (
      field (codes "body")
        (array (cons (object (field (codes "Pass-Word") (text (codes "secret1")) end)) nil)) end))

password_redacted :
    sanitize_value (λ s. s) (codes "metadata") login_metadata
    ≡ object (
        field (codes "user") (text (codes "ann")) (
          field
            (codes "body")
            (array (cons (object (field (codes "Pass-Word") redacted end)) nil))
            end))
unfolding sanitize_value normalize_key
password_redacted = refl

abbrev log_settings : LogSettings
log_settings = record {
  log_level = info;
  node_env = codes "test";
  timestamp = codes "t";
  stringify = λ v. some [];
  error_type = codes "TypeError";
}

write_hides_example :
    write
      (λ s. s)
      log_settings
      info
      (codes "login")
      (replace (text []) (codes "metadata") login_metadata)
    ≡ write (λ s. s) log_settings info (codes "login") login_metadata
write_hides_example =
    write_hides (λ s. s) (text []) log_settings info (codes "login") login_metadata
