-- ===== src/Credentials.antt =====
-- The files of credentials: load_credentials of scripts/fw_apply_direct.py and scripts/opn_oob_admin.py,
-- and load_creds of scripts/fw_verify_health.py. A file is the dict of its `fields`,
-- with `none` for a file without that key. A port is written in decimal digits.
use Prim.Native.Char.{code}
use ansible_platform.Prelude.{
  ℕ, ◌+◌, ◌*◌, ◌-◌, leb, String, ◌<>◌, ◌==◌, Bool, false, ◌&&◌, Option, none, some, List, [], ◌∷◌,
  contains, String-discrete, if◌then◌else◌,
}
use ansible_platform.Prelude.Text.{strip, lower}
use ansible_platform.Prelude.Value.{Scalar, null, flag, num, text, str, truthy_scalar, decimal}
use ansible_platform.Prelude.Dict
use ansible_platform.Prelude.Dict.{Dict}
use ansible_platform.Prelude.Exec.{Raised, Result, ok, err, system_exit, key_error, then_result}

abbrev pub Fields : Type 0
Fields = Dict Scalar

abbrev pub yes_words : List String
yes_words = "true" ∷ "1" ∷ "yes" ∷ "on" ∷ []

-- `_as_bool`, and `_bool` of the gate, which says the same of a bool
unfoldable pub as_bool : Scalar → Bool
unfolding strip lower str String-discrete
as_bool v = contains yes_words (lower (strip (str v)))

abbrev pub read_digit : Option ℕ → ℕ → Option ℕ
read_digit none c = none
read_digit (some n) c = if leb 48 c && leb c 57 then some (n * 10 + (c - 48)) else none

unfoldable pub digits_from : Option ℕ → String → Option ℕ
digits_from n String.[] = n
digits_from n (String.◌∷◌ c s) = digits_from (read_digit n (code c)) s

abbrev pub int_of_digits : String → Option ℕ
int_of_digits s = if s == "" then none else digits_from (some 0) s

abbrev pub parsed : Option ℕ → Result ℕ
parsed none = err Raised.type_error
parsed (some n) = ok n

-- `int(v)`; a text that is no number raises, which is told here as Python's TypeError is.
unfoldable pub int : Scalar → Result ℕ
unfolding digits_from strip String-discrete
int null = err Raised.type_error
int (flag b) = ok (if b then 1 else 0)
int (num n) = ok n
int (text s) = parsed (int_of_digits (strip s))

-- `fields.get(key)`
abbrev pub or_null : Option Scalar → Scalar
or_null none = null
or_null (some v) = v

-- `int(fields.get("port") or 443)`
unfoldable pub port_of : Fields → Result ℕ
unfolding int truthy_scalar Dict.get
port_of f =
    let port = or_null (Dict.get f "port") in int (if truthy_scalar port then port else num 443)

abbrev pub or_no : Option Scalar → Scalar
or_no none = flag false
or_no (some v) = v

pub record Credentials : Type 0 where
  pub host : Scalar
  pub port : ℕ
  pub key : Scalar
  pub secret : Scalar
  pub verify_ssl : Bool

-- The loop over the three fields that must be there
unfoldable pub require : List String → Fields → Result (Unit {0})
unfolding truthy_scalar Dict.get
require [] f = ok tt
require (key ∷ keys) f =
    let rest = require keys f in
    if truthy_scalar (or_null (Dict.get f key))
    then rest
    else err (system_exit ("Secret file missing field 'fields." <> (key <> "'")))

abbrev pub given : Option Fields → Fields
given none = []
given (some f) = f

-- `load_credentials` behind the reading of the file, of both scripts; `none` is a file that is not there.
unfoldable pub load_credentials : String → Option (Option Fields) → Result Credentials
unfolding require port_of as_bool
load_credentials path none = err (system_exit ("Secret file missing: " <> path))
load_credentials path (some file) =
    let f = given file in
    then_result (require ("host" ∷ "key" ∷ "secret" ∷ []) f) (λ _. then_result (port_of f) (λ port.
      ok (record {
        host = or_null (Dict.get f "host");
        port = port;
        key = or_null (Dict.get f "key");
        secret = or_null (Dict.get f "secret");
        verify_ssl = as_bool (or_no (Dict.get f "verify_ssl"));
      })))

-- `f[key]`
abbrev pub at_key : Option Scalar → Result Scalar
at_key none = err key_error
at_key (some v) = ok v

abbrev pub fields_of : Option Fields → Result Fields
fields_of none = err key_error
fields_of (some f) = ok f

-- `host or f['host']`
abbrev pub host_of : Option String → Fields → Result Scalar
host_of none f = at_key (Dict.get f "host")
host_of (some h) f = if h == "" then at_key (Dict.get f "host") else ok (text h)

-- What the gate takes from the file
pub record Creds : Type 0 where
  pub base : String
  pub key : Scalar
  pub secret : Scalar
  pub verify_ssl : Bool

-- `load_creds`
unfoldable pub load_creds : Option Fields → Option String → Result Creds
unfolding port_of as_bool Dict.get str decimal String-discrete
load_creds file host = then_result (fields_of file) (λ f. then_result (host_of host f) (λ h.
    then_result (port_of f) (λ port. then_result (at_key (Dict.get f "key")) (λ key.
      then_result (at_key (Dict.get f "secret")) (λ secret. ok (record {
        base = "https://" <> (str h <> (":" <> decimal port));
        key = key;
        secret = secret;
        verify_ssl = as_bool (or_no (Dict.get f "verify_ssl"));
      }))))))
