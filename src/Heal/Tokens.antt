-- ===== src/Heal/Tokens.antt =====
-- Which token a start uses, and what it writes down.
use shape_rotator_matrix.Base.{String, ◌≡◌, ◌⊎◌, true, false, Option, none, some}
use shape_rotator_matrix.Exec.{Exec}
use shape_rotator_matrix.Credentials.{Disk, Boot, Server, Resolved, read_text}

-- What a result says of the files: a token that was not minted is the one of the environment or the
-- one of the file, and the files are as they were; a minted token and its device are written down,
-- and nothing else is.
abbrev pub Resolves : Disk → String → Option Resolved → Boot → Type 0
Resolves a env_token none b = b.disk ≡ a
Resolves a env_token (some r) b =
    ((r.was_reminted ≡ false)
      × (b.disk ≡ a)
      × ((r.token ≡ env_token) ⊎ (read_text a.token ≡ some r.token)))
    ⊎ ((r.was_reminted ≡ true)
        × (b.disk ≡ record a { token = some r.token; device_id = some r.identity.device_id }))

-- What an exception leaves: the files as they were, or with the token of a login whose reply named no
-- device to write down beside it.
pub data Interrupted (a : Disk) : Disk → Type 0 where
  untouched : {d : Disk} → d ≡ a → Interrupted a d
  token_alone : {d : Disk} (token : String) → d ≡ record a { token = some token } → Interrupted a d

module _ (s : Server) (a : Disk) (env_token : String) where
  abbrev IsOld : Boot → Type 0
  IsOld b = b.disk ≡ a

  abbrev IsLeft : Boot → Type 0
  IsLeft b = Interrupted a b.disk
