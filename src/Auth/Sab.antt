-- ===== src/Auth/Sab.antt =====
-- internal/auth/sab.go: the keys of the SABnzbd interface.
use tor_boxarr.Base.{
  Bool, Str, if◌then◌else◌, is_empty, lit, not, str_eq, to_lower, trim_space, true, ◌&&◌, ◌||◌,
}

pub record SabAuth : Type 0 where
  pub api_key : Str
  pub nzb_key : Str

abbrev pub valid_key : SabAuth → Str → Bool
valid_key a key = not (is_empty key) && (str_eq key a.api_key || str_eq key a.nzb_key)

-- All the modes of the source but the first two come to the test of the key.
unfoldable pub allow : SabAuth → Str → Str → Bool
allow a mode key =
    let mode = to_lower (trim_space mode) in
    if str_eq mode (lit "version") || str_eq mode (lit "auth")
    then true
    else valid_key a (trim_space key)
