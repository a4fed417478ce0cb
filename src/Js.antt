-- ===== src/Js.antt =====
-- The values of the JavaScript runtime that reach the program from outside as `unknown`: request
-- bodies, query parameters, parsed JSON.
pub mod Trim
pub mod Uuid
use mern_chat_app.Common.{ℕ, Text, text_eq, Bool, true, false, if◌then◌else◌}

-- `real` is a number that is not a natural number, by its digits. The fields of an object have
-- different names.
mutual
  pub data Js : Type 0 where
    undefined null : Js
    bool : Bool → Js
    num : ℕ → Js
    real : Text → Js
    str : Text → Js
    arr : Items → Js
    obj : Fields → Js

  pub data Items : Type 0 where
    nil : Items
    cons : Js → Items → Items

  pub data Fields : Type 0 where
    end : Fields
    field : Text → Js → Fields → Fields

-- `typeof value === "object" && value !== null`.
abbrev pub is_record : Js → Bool
is_record (arr xs) = true
is_record (obj fs) = true
is_record _ = false

abbrev pub get : Text → Fields → Js
get key end = undefined
get key (field k v fs) = if text_eq k key then v else get key fs

-- `value.key`, of a value that `is_record` accepts.
abbrev pub prop : Text → Js → Js
prop key (obj fs) = get key fs
prop key _ = undefined
