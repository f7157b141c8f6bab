-- ===== src/Json.antt =====
-- `serde_json::Value`, whose constructors the code matches on and whose objects `json!` builds.
-- Numbers are the natural ones, the only numbers that the code itself writes.
use affinidi_messaging.Common.{
  ℕ, ℕ_discrete, String_discrete, String, Bool, Option, none, some, ◌=ₛ◌, if◌then◌else◌,
}

mutual
  pub data Value : Type 0 where
    null : Value
    bool : Bool → Value
    number : ℕ → Value
    string : String → Value
    array : Elems → Value
    object : Fields → Value

  pub data Elems : Type 0 where
    nil : Elems
    cons : Value → Elems → Elems

  pub data Fields : Type 0 where
    end : Fields
    field : String → Value → Fields → Fields

unfoldable pub get : String → Fields → Option Value
get key end = none
get key (field k v fs) = if k =ₛ key then some v else get key fs

-- `value.as_str()`.
abbrev pub as_str : Value → Option String
as_str (string s) = some s
as_str v = none

-- A member that `skip_serializing_if = "Option::is_none"` leaves out.
abbrev pub optional : String → Option ℕ → Fields → Fields
optional key none fs = fs
optional key (some n) fs = field key (number n) fs

pub Value-discrete : Discrete Value
Value-discrete = hlevel (ℕ_discrete, String_discrete)
