-- ===== src/Didcomm/Error.antt =====
-- affinidi-messaging-didcomm/src/error.rs: the kinds of error, and the kind that an error of serde
-- or of bs58 is given. An error is modelled by its kind; its text is left out.
use affinidi_messaging.Common.{
  Bool, true, false, Option, none, some, ◌≡◌, refl, Result, ok, err, panic, ensure,
}

pub data ErrorKind : Type 0 where
  did_not_resolved did_url_not_found secret_not_found malformed io_error : ErrorKind
  invalid_state no_compatible_crypto unsupported illegal_argument : ErrorKind
  too_many_crypto_operations : ErrorKind

-- `serde_json::error::Category`.
pub data Category : Type 0 where
  io syntax content eof : Category

abbrev from_serde : Category → ErrorKind
from_serde io = ErrorKind.invalid_state
from_serde eof = ErrorKind.invalid_state
from_serde syntax = ErrorKind.malformed
from_serde content = ErrorKind.malformed

-- `bs58::decode::Error`, as far as it is told apart.
pub data DecodeError : Type 0 where
  buffer_too_small other : DecodeError

abbrev from_bs58 : DecodeError → ErrorKind
from_bs58 buffer_too_small = ErrorKind.invalid_state
from_bs58 other = ErrorKind.malformed

abbrev map_err : {E F A : Type 0} → (E → F) → Result E A → Result F A
map_err f (ok a) = ok a
map_err f (err e) = err (f e)
map_err f panic = panic

-- `to_didcomm`, for serde and for bs58.
abbrev pub to_didcomm : {A : Type 0} → Result Category A → Result ErrorKind A
to_didcomm = map_err from_serde

abbrev pub bs58_to_didcomm : {A : Type 0} → Result DecodeError A → Result ErrorKind A
bs58_to_didcomm = map_err from_bs58

-- `ok_or_else`, and `kind` on a result whose error is left out.
abbrev pub ok_or : {A : Type 0} → ErrorKind → Option A → Result ErrorKind A
ok_or e none = err e
ok_or e (some a) = ok a

-- `kind` on a result whose error is told.
abbrev pub kind : {E A : Type 0} → ErrorKind → Result E A → Result ErrorKind A
kind e = map_err (λ _. e)

-- `unwrap` on an option.
abbrev pub or_panic : {A : Type 0} → Option A → Result ErrorKind A
or_panic none = panic
or_panic (some a) = ok a

-- Inversion of `ensure` and of `ok_or`.
pub ensure-eq-ok : (b : Bool) (e : ErrorKind) {u : Unit {0}} → ensure b e ≡ ok u → b ≡ true
ensure-eq-ok true e h = refl
ensure-eq-ok false e h = cc

pub ok_or-eq-ok :
    {A : Type 0} (o : Option A) (e : ErrorKind) {a : A} → ok_or e o ≡ ok a → o ≡ some a
ok_or-eq-ok (some a) e h = cc
ok_or-eq-ok none e h = cc
