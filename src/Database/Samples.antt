-- ===== src/Database/Samples.antt =====
-- Test data: a runtime whose texts of a UUID have one code unit, and a database with three users.
use mern_chat_app.Common.{ℕ, Text, codes, ◌+◌, ◌≡◌, refl, Option, none, some, [], ◌∷◌}
use mern_chat_app.Database.{World, Db, Runtime, User, MessageRow}

abbrev pub read_unit : Text → Option ℕ
read_unit (n ∷ []) = some n
read_unit _ = none

abbrev pub sample_runtime : Runtime
sample_runtime = record {
  print_uuid = λ n. n ∷ [];
  read_uuid = read_unit;
  random_uuid = λ k. 100 + k;
  now = 1_000;
  row_date = λ t. t;
  iso = λ t. t ∷ [];
  read_timestamp = λ s. 0;
}

abbrev pub sample_reads : (n : ℕ) → sample_runtime.read_uuid (sample_runtime.print_uuid n) ≡ some n
sample_reads n = refl

abbrev pub sample_user : ℕ → User
sample_user n = record {
  id = n;
  fullname = codes "Some User";
  email = n ∷ codes "@b";
  password_hash = codes "hash";
  created_at = n;
  updated_at = n;
}

abbrev pub sample_message : ℕ → ℕ → MessageRow
sample_message id at = record {
  id = id;
  conversation_id = 50;
  sender_id = 1;
  content = codes "hi";
  created_at = at;
  updated_at = at;
}

abbrev pub sample_db : Db
sample_db = record {
  users = sample_user 1 ∷ sample_user 2 ∷ sample_user 3 ∷ [];
  conversations =
      record { id = 50; member_a_id = 1; member_b_id = 3; created_at = 5; updated_at = 5 } ∷ [];
  members = [];
  messages = sample_message 60 10 ∷ sample_message 61 20 ∷ sample_message 62 30 ∷ [];
  outbox = record { next_sequence = 1; rows = [] };
  processed_events = [];
  notifications = [];
  sessions = [];
}

abbrev pub sample_world : World
sample_world = record { db = sample_db; saved = none; answers = []; drawn = 0 }
