-- ===== src/Mx/OnlyRoom.antt =====
-- The rule that the tool talks to the room of the fixtures file alone.
use shape_rotator_matrix.Base.{
  String, ◌≡◌, refl, ◌⊎◌, inl, inr, Bool, true, false, not, Option, none, some, List, [], ◌∷◌,
  arith, if◌then◌else◌,
}
use shape_rotator_matrix.Text.{is_empty, is_prefix_of}
use shape_rotator_matrix.Dict.{Dict, lookup}
use shape_rotator_matrix.Exec.{ok, raised, ◌>>=◌}
use shape_rotator_matrix.Exec.Rules.{Preserves-pure, Preserves-try, Preserves-bind}
use shape_rotator_matrix.Mx.Host.{JsonFile, Host, Client}
use shape_rotator_matrix.Mx.Config.{
  Config, configured, config_error, crashed, lacks, check_room, check_fields, needed, load_config,
}
use shape_rotator_matrix.Mx.Commands.{Command, with_config, main}
use shape_rotator_matrix.Mx.Confined.{IsConfined, run_command-IsConfined}

-- The room is the one that the fixtures file names, and has the sigil of a room id.
pub record IsConfigured (fixtures : JsonFile) (room : String) : Type 0 where
  pub entries : Dict String
  pub file : fixtures ≡ some (ok entries)
  pub entry : lookup "matrix_room_id" entries ≡ some room
  pub sigil : is_prefix_of "!" room ≡ true

abbrev IsGood : JsonFile → Config → Type 0
IsGood f (configured creds room) = IsConfigured f room
IsGood f (config_error why) = Unit
IsGood f (crashed x) = Unit

IsGood-if :
    (f : JsonFile) (b : Bool) (c d : Config)
    → IsGood f c
    → (b ≡ false → IsGood f d)
    → IsGood f (if b then c else d)
IsGood-if f true c d hc hd = hc
IsGood-if f false c d hc hd = hd refl

check_room-IsGood :
    (f : JsonFile) (creds entries : Dict String) (o : Option String)
    → f ≡ some (ok entries)
    → lookup "matrix_room_id" entries ≡ o
    → IsGood f (check_room creds o)
check_room-IsGood f creds entries none file entry = tt
check_room-IsGood f creds entries (some room) file entry = IsGood-if f (is_empty room) _ _ tt λ _.
    IsGood-if f (not (is_prefix_of "!" room)) _ _ tt
      λ h. record { entries = entries; file = file; entry = entry; sigil = ground arith }

check_fields-IsGood :
    (f : JsonFile) (creds entries : Dict String) (ks : List String)
    → f ≡ some (ok entries)
    → IsGood f (check_fields creds entries ks)
unfolding check_fields
check_fields-IsGood f creds entries [] file = check_room-IsGood f creds entries _ file refl
check_fields-IsGood f creds entries (k ∷ ks) file =
    IsGood-if f (lacks (lookup k creds)) _ _ tt λ _. check_fields-IsGood f creds entries ks file

load_config-IsGood : (creds f : JsonFile) → IsGood f (load_config creds f)
unfolding load_config
load_config-IsGood none f = tt
load_config-IsGood (some creds) none = tt
load_config-IsGood (some (raised x)) (some f) = tt
load_config-IsGood (some (ok creds)) (some (raised x)) = tt
load_config-IsGood (some (ok creds)) (some (ok entries)) =
    check_fields-IsGood (some (ok entries)) creds entries needed refl

-- Whatever the command and whatever the servers reply: either the configuration was refused and
-- nothing was requested, or every message that the tool sends, whether it gets through or not, and
-- every request for messages names the one room that the fixtures file names; the id of that room
-- starts with an exclamation mark.
pub main-IsConfined :
    (cl : Client) (cmd : Command) (h : Host)
    → h.calls ≡ []
    → h.delivered ≡ []
    → let h' = (main cl cmd h).1 in
      ((room : String) × IsConfigured h.fixtures room × IsConfined room h')
      ⊎ ((h'.calls ≡ []) × (h'.delivered ≡ []))
unfolding main ◌>>=◌
main-IsConfined cl cmd h no_calls none' =
    go (load_config h.creds h.fixtures) (load_config-IsGood h.creds h.fixtures)
  where
    start_lem : (room : String) → IsConfined room h
    start_lem room = (rw no_calls tt, rw none' tt)

    go :
        (c : Config)
        → IsGood h.fixtures c
        → let h' = (with_config cl cmd c h).1 in
          ((room : String) × IsConfigured h.fixtures room × IsConfined room h')
          ⊎ ((h'.calls ≡ []) × (h'.delivered ≡ []))
    go (configured creds room) good = inl (
      room,
      good,
      (Preserves-try _ _
            (Preserves-bind _ _ (run_command-IsConfined room cl cmd creds) λ _. Preserves-pure _)
            λ x. Preserves-pure _).from
          h (start_lem room),
    )
    go (config_error why) good = inr (no_calls, none')
    go (crashed x) good = inr (no_calls, none')
