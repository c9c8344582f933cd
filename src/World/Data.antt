-- ===== src/World/Data.antt =====
-- The data of the approver: records of the state files, requests with their replies, audit entries.
use shape_rotator_matrix.Base.{ℕ, String, Bool, Option, none, some, List}
use shape_rotator_matrix.Dict.{Dict}
use shape_rotator_matrix.Exec.{Exn}

-- An entry of codes.json or signup_codes.json. An absent number of uses is read as 0, an absent
-- label or inviter as the empty text, as the code's `.get` does.
pub record CodeEntry : Type 0 where
  pub uses_remaining : ℕ
  pub label : String
  pub inviter : String

-- `entry.get("uses_remaining", 0)` of an entry that may be missing
abbrev pub uses_left : Option CodeEntry → ℕ
uses_left none = 0
uses_left (some e) = e.uses_remaining

-- An entry of vetting.json: one vetting room.
pub record Vetting : Type 0 where
  pub mxid : String
  pub code : String
  pub created : ℕ
  pub title : String
  pub keyword : String
  pub displayname : String
  pub tries_left : ℕ
  pub promoted : Bool
  pub promoted_at : ℕ
  pub invited_children : List String
  pub closed : Bool
  pub closed_reason : Option String

-- An entry of lobby.json: one lobby room.
pub record Lobby : Type 0 where
  pub alias : String
  pub code : String
  pub created : ℕ
  pub title : String
  pub keyword : String
  pub challenged : List String
  pub tries : Dict ℕ
  pub displaynames : Dict String
  pub challenge_sent_ts : Dict ℕ
  pub challenge_resends : Dict ℕ
  pub promoted : Bool
  pub promoted_at : ℕ
  pub promoted_user : String
  pub closed : Bool
  pub closed_reason : Option String

-- An entry of operator_announce.json.
pub record Seen : Type 0 where
  pub started : List String
  pub failed : Bool

-- The two Matrix identities that the process acts as.
pub data Bot : Type 0 where
  main_bot lobby_bot : Bot

-- The messages that the process posts, by the values that their texts show.
pub data Notice : Type 0 where
  challenge : String → String → String → ℕ → Notice
  challenge_again : String → String → String → ℕ → Notice
  not_yet : String → String → ℕ → Notice
  out_of_tries : String → Notice
  welcome : Bool → Option String → Notice
  joined_feed : String → String → String → String → List String → Notice
  lobby_started : String → String → String → Notice
  lobby_failed : List String → Option String → String → Notice
  admin_reply : String → Notice
  admin_refused : String → Notice

pub data Request : Type 0 where
  random_summary : Request
  create_vetting_room : String → Request
  create_lobby_room : String → Request
  join_room : Bot → String → Request
  invite : Bot → String → String → Request
  leave : Bot → String → Request
  send : Bot → String → Notice → Request
  power_levels : String → Request
  sleep : ℕ → Request
  register_init : Request
  register : String → String → String → Request
  set_displayname : String → String → Request
  join_as : String → String → Request
  create_dm : String → String → Request

-- What the code reads of a reply: its status with one text (the body, or the field that is
-- looked up in it), or the exception that the client raised.
pub data Reply : Type 0 where
  answer : ℕ → String → Reply
  failed : Exn → Reply

-- Entries of log.jsonl, by the fields that tell them apart.
pub data Audit : Type 0 where
  knock_rejected : String → String → Audit
  vetting_room_failed : String → String → Audit
  vetting_room_created : String → String → String → Audit
  promoted : String → String → Option String → Audit
  promote_failed : String → ℕ → Audit
  vetting_failed : String → String → Audit
  vetting_timeout : String → String → Audit
  lobby_rejected : String → Audit
  lobby_room_failed : String → Audit
  lobby_created : String → String → String → Audit
  lobby_challenge_sent : String → String → Audit
  lobby_challenge_resent : String → String → ℕ → Audit
  lobby_promoted : String → String → Bool → List String → Option String → Audit
  lobby_promote_failed : String → ℕ → Audit
  lobby_user_failed : String → String → Audit
  lobby_timeout : String → String → Audit
  admin_mint : Bool → ℕ → ℕ → String → String → List String → Audit
  admin_revoke : String → String → Bool → Audit
  admin_refusal : String → String → Audit
  signup_rejected : String → Audit
  signup_failed : String → ℕ → Audit
  signup_ok : String → String → ℕ → Audit

pub record World : Type 0 where
  pub codes : Dict CodeEntry
  pub signup : Dict CodeEntry
  pub vetting : Dict Vetting
  pub lobby : Dict Lobby
  pub announced : Option (Dict Seen)  -- `none`: the file does not exist yet
  pub log : List Audit  -- newest first
  pub trace : List Request  -- newest first
  pub drawn : ℕ  -- random tokens drawn so far

-- The configuration, and what is outside the program. A reply may depend on the whole history of
-- requests, so nothing is assumed of the servers; time is in whole seconds.
pub record Env : Type 0 where
  pub space_id : String
  pub server_name : String
  pub space_child_ids : List String
  pub vetting_timeout : ℕ
  pub vetting_max_tries : ℕ
  pub lobby_timeout : ℕ
  pub lobby_max_tries : ℕ
  pub lobby_challenge_delay : ℕ
  pub lobby_resend_after : ℕ
  pub lobby_alias_prefix : String
  pub welcome_code_uses : ℕ
  pub feed_room : String
  pub operator_notify_room : String
  pub admin_command_room : String
  pub admin_allowlist : List String
  pub admin_pl_threshold : ℕ
  pub our_mxid : String
  pub reg_token : String
  pub onboarding_inviter : String
  pub reply : List Request → Request → Reply
  pub now : List Request → ℕ
  pub token_urlsafe : ℕ → String
  pub token_hex : ℕ → ℕ → String  -- by the number of bytes
  pub lower : String → String
  pub is_alpha : String → Bool
  -- the power levels of a room, by user, and the level of all others; `none`: the request raised
  pub level_table : List Request → String → Option (Dict ℕ × ℕ)
