-- ===== src/Relay/Bodies.antt =====
-- What is relayed of a message: `_tg_text`, `_mx_body`, and `_sender_name` of bridge/tg.py.
use shape_rotator_matrix.Base.{
  ℕ, String, Bool, ◌||◌, Option, none, some, List, [], ◌∷◌, ◌==◌, elem, if◌then◌else◌,
}
use shape_rotator_matrix.Text.{concat, is_empty}

-- A Telegram message. Ids of senders are kept as their decimal texts.
pub record TgMessage : Type 0 where
  pub id : ℕ
  pub sender_id : Option String
  pub text : String
  pub media : Option (List String)  -- the attributes that are not None

-- `_TG_MEDIA_PLACEHOLDER`, in its order
abbrev pub placeholders : List (String × String)
placeholders =
    ("photo", "[image posted in Telegram]")
    ∷ ("document", "[file posted in Telegram]")
    ∷ ("video", "[video posted in Telegram]")
    ∷ ("sticker", "[sticker posted in Telegram]")
    ∷ ("voice", "[voice message posted in Telegram]")
    ∷ ("audio", "[audio posted in Telegram]")
    ∷ ("gif", "[gif posted in Telegram]")
    ∷ []

-- The loop over the placeholders.
unfoldable pub label_for : List String → List (String × String) → String
label_for attrs [] = "[non-text message in Telegram]"
label_for attrs ((attr, label) ∷ rest) = if elem attr attrs then label else label_for attrs rest

unfoldable pub media_text : Option (List String) → Option String
unfolding label_for
media_text none = none
media_text (some attrs) = some (label_for attrs placeholders)

-- `_tg_text`
unfoldable pub tg_text : TgMessage → Option String
tg_text msg = if is_empty msg.text then media_text msg.media else some msg.text

-- `a or b` on names, where None and the empty text are false
abbrev or_name : Option String → Option String → Option String
or_name none b = b
or_name (some a) b = if is_empty a then b else some a

abbrev id_name : Option String → String
id_name none = "unknown"
id_name (some i) = concat "id:" i

abbrev name_or_id : Option String → Option String → String
name_or_id none sender_id = id_name sender_id
name_or_id (some name) sender_id = if is_empty name then id_name sender_id else name

-- `_sender_name`
unfoldable pub sender_name : Option (Option String × Option String) → Option String → String
unfolding concat
sender_name none sender_id = id_name sender_id
sender_name (some (first_name, title)) sender_id = name_or_id (or_name first_name title) sender_id

-- The content of a Matrix event, as far as it is read.
pub record Content : Type 0 where
  pub rel_type : String
  pub msgtype : String
  pub body : String

unfoldable pub is_media : String → Bool
is_media t = t == "m.image" || t == "m.file" || t == "m.audio" || t == "m.video"

abbrev content_body : Content → Option String
content_body c =
    if c.rel_type == "m.replace"
    then none
    else if c.msgtype == "m.text" || c.msgtype == "m.notice"
    then some c.body
    else if c.msgtype == "m.emote"
    then (if is_empty c.body then none else some (concat "* " (concat c.body "*")))
    else if is_media c.msgtype
    then some (concat "[" (concat c.msgtype " posted in Matrix]"))
    else none

-- `_mx_body`
unfoldable pub mx_body : Option Content → Option String
unfolding concat is_media
mx_body none = none
mx_body (some c) = content_body c

-- `f"**{sender}:** {text}"`
unfoldable pub relayed : String → String → String
unfolding concat
relayed sender text = concat "**" (concat sender (concat ":** " text))
