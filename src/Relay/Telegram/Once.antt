-- ===== src/Relay/Telegram/Once.antt =====
-- Which messages a poll forwards.
use shape_rotator_matrix.Base.{
  ℕ, ◌≤◌, String, ◌≡◌, Option, none, some, List, [], ◌∷◌, ◌++◌, reverse, eqb, if◌then◌else◌,
}
use shape_rotator_matrix.Exec.{Outcome, ok, raised}
use shape_rotator_matrix.Exec.Triples.{Post-map, Triple-if, Triple-return}
use shape_rotator_matrix.Exec.Triples
use shape_rotator_matrix.Relay.Bodies.{TgMessage, tg_text, sender_name, relayed}
use shape_rotator_matrix.Relay.Bridge.{Post, to_matrix, Bridge, Clients}
use shape_rotator_matrix.Relay.Telegram.{is_own}

-- The post that a message calls for: none for the relay's own messages, and none without a text.
abbrev post_from :
    TgMessage → String → Outcome (Option (Option String × Option String)) → List Post → List Post
post_from msg text (raised x) posts = posts
post_from msg text (ok sender) posts =
    to_matrix (relayed (sender_name sender msg.sender_id) text) ∷ posts

abbrev post_of_text : Clients → TgMessage → Option String → List Post → List Post
post_of_text c msg none posts = posts
post_of_text c msg (some text) posts = post_from msg text (c.get_sender posts msg) posts

abbrev pub with_post : Clients → TgMessage → List Post → List Post
with_post c msg posts = if is_own c msg then posts else post_of_text c msg (tg_text msg) posts

-- The posts of the messages, the last message's first.
abbrev pub posts_of : Clients → List TgMessage → List Post → List Post
posts_of c [] posts = posts
posts_of c (msg ∷ msgs) posts = posts_of c msgs (with_post c msg posts)

-- So much was posted, and the cursor is not behind.
pub record At (posts : List Post) (last : ℕ) (b : Bridge) : Type 0 where
  pub posted : b.posts ≡ posts
  pub onward : last ≤ b.state.tg_last_id

-- The posts of the first messages of the list, up to some point.
pub record Partly (c : Clients) (msgs : List TgMessage) (posts : List Post) (last : ℕ) (b : Bridge)
    : Type 0 where
  pub done : List TgMessage
  pub rest : List TgMessage
  pub split : msgs ≡ done ++ rest
  pub at : At (posts_of c done posts) last b

-- What a poll of the messages that are newer has posted, where it returns and where it raises.
abbrev pub Polled : Clients → Outcome (List TgMessage) → Bridge → Bridge → Type 0
Polled c (raised x) b b' = ⊥
Polled c (ok new) b b' =
    At (if eqb b.state.tg_last_id 0 then b.posts else posts_of c (reverse new) b.posts)
      b.state.tg_last_id b'

abbrev pub Broken : Clients → Outcome (List TgMessage) → Bridge → Bridge → Type 0
Broken c (raised x) b b' = b' ≡ b
Broken c (ok new) b b' = Partly c (reverse new) b.posts b.state.tg_last_id b'
