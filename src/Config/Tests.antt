-- ===== src/Config/Tests.antt =====
-- Numbers, origins and the outbox of an environment.
use mern_chat_app.Common.{codes, text_eq, ◌≡◌, refl, some, [], ◌∷◌, if◌then◌else◌}
use mern_chat_app.Errors.{ok, err, plain}
use mern_chat_app.Config.{Environment, parse_int, positive_int, parse_cors_origins}

abbrev sample_environment : Environment
sample_environment = record {
  variable = λ name.
      if text_eq name (codes "CORS_ORIGINS")
      then some (codes "http://a, ,http://a")
      else some (codes " 0x ");
  lower = λ s. s;
  new_url = λ s. some (codes "http:", s);
}

prefix_parsed : parse_int (codes "12ab") ≡ 12
unfolding parse_int
prefix_parsed = refl

origins_once : parse_cors_origins sample_environment ≡ ok (codes "http://a" ∷ [])
unfolding parse_cors_origins
origins_once = refl

zero_refused :
    positive_int sample_environment (codes "N") 5
    ≡ err (plain (codes "N environment variable must be a positive integer"))
unfolding positive_int parse_int
zero_refused = refl
