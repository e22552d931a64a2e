-- ===== src/Tests/Creds.antt =====
-- The credentials' files of the firewall scripts.
use ansible_platform.Prelude.{◌≡◌, refl, false, some, [], ◌∷◌, String-discrete}
use ansible_platform.Prelude.Text.{strip, strip_left, strip_right, lower, lower_char, chr}
use ansible_platform.Prelude.Value.{text, str, truthy_scalar}
use ansible_platform.Prelude.Dict
use ansible_platform.Prelude.Exec.{ok, err, system_exit}
use ansible_platform.Credentials.{
  Fields, as_bool, digits_from, int, port_of, require, load_credentials,
}

abbrev complete : Fields
complete =
    ("host", text "fw")
    ∷ ("key", text "k")
    ∷ ("secret", text "s")
    ∷ ("verify_ssl", text "false")
    ∷ []

false_is_false : as_bool (text "False ") ≡ false
unfolding as_bool strip strip_left strip_right lower lower_char chr str String-discrete
false_is_false = refl

port_is_read : port_of (("port", text "8443") ∷ []) ≡ ok 8443
unfolding port_of int digits_from strip strip_left strip_right truthy_scalar Dict.get
    String-discrete
port_is_read = refl

loads :
    load_credentials "p" (some (some complete))
    ≡ ok (record {
      host = text "fw";
      port = 443;
      key = text "k";
      secret = text "s";
      verify_ssl = false;
    })
unfolding load_credentials require port_of int as_bool strip strip_left strip_right lower lower_char
    chr str truthy_scalar Dict.get String-discrete
loads = refl

refuses :
    load_credentials "p" (some (some (("host", text "fw") ∷ [])))
    ≡ err (system_exit "Secret file missing field 'fields.key'")
unfolding load_credentials require truthy_scalar Dict.get String-discrete
refuses = refl
