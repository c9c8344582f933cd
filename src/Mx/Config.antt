-- ===== src/Mx/Config.antt =====
-- `load_config`.
use shape_rotator_matrix.Base.{
  String, Bool, true, not, Option, none, some, List, [], ◌∷◌, if◌then◌else◌,
}
use shape_rotator_matrix.Text.{concat, is_empty, is_prefix_of}
use shape_rotator_matrix.Dict.{Dict, lookup}
use shape_rotator_matrix.Exec.{Exn, Outcome, ok, raised}
use shape_rotator_matrix.Mx.Host.{JsonFile}

-- What `load_config` may come to: the configuration, a `ConfigError`, or another exception.
pub data Config : Type 0 where
  configured : Dict String → String → Config
  config_error : String → Config
  crashed : Exn → Config

-- `not d.get(k)`
abbrev pub lacks : Option String → Bool
lacks none = true
lacks (some v) = is_empty v

abbrev pub check_room : Dict String → Option String → Config
check_room creds none = config_error "test-fixtures.json missing matrix_room_id"
check_room creds (some room) =
    if is_empty room
    then config_error "test-fixtures.json missing matrix_room_id"
    else if not (is_prefix_of "!" room)
    then config_error "refusing suspicious matrix_room_id"
    else configured creds room

-- The loop over the fields that are needed, and what follows it.
unfoldable pub check_fields : Dict String → Dict String → List String → Config
unfolding concat
check_fields creds fixtures [] = check_room creds (lookup "matrix_room_id" fixtures)
check_fields creds fixtures (k ∷ ks) =
    let rest = check_fields creds fixtures ks in
    if lacks (lookup k creds) then config_error (concat "creds.json missing field: " k) else rest

abbrev pub needed : List String
needed = "user_id" ∷ "access_token" ∷ "device_id" ∷ "homeserver" ∷ []

abbrev pub with_files : Outcome (Dict String) → Outcome (Dict String) → Config
with_files (raised x) fixtures = crashed x
with_files (ok creds) (raised x) = crashed x
with_files (ok creds) (ok fixtures) = check_fields creds fixtures needed

unfoldable pub load_config : JsonFile → JsonFile → Config
unfolding check_fields
load_config none fixtures = config_error "missing bot credentials"
load_config (some creds) none = config_error "missing test fixtures"
load_config (some creds) (some fixtures) = with_files creds fixtures
