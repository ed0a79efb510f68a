-- ===== src/Handler/Incoming.antt =====
-- A message on its way to the handlers: go/internal/handler/routing.go, handler/spam.go and the ban check of
-- handler/ban.go. SHA-256 in hexadecimal, the database's banned links and the expressions of the link
-- parser are arguments.
pub mod Spam
pub mod Dispatch
pub mod Held
pub mod Text
use saveinator.Prelude.{
  ℕ, zero, suc, ◌*◌, Bool, true, false, ◌&&◌, ◌||◌, not, List, [], ◌∷◌, ◌++◌, Option, none, some,
  Bytes, codes, is_empty, ℤ, pos, negsuc, eq_ℤ, if◌then◌else◌,
}
use saveinator.Text.Search.{has_prefix}
use saveinator.Linkparser.{ParsedLink, Expressions, extract_urls}
use saveinator.Redis.{Redis}
use saveinator.Redisx.Client.{Client, allow_url_dedup}
use saveinator.Redisx.Bans.{is_user_banned}
use saveinator.Handler.Reply.{Reply, send, notify_admin, forward}
use saveinator.Handler.Enqueue.{is_admin}

-- What is read of a message: its sender, its chat, whether that is a private one, the text, the caption
-- of a picture or a video, and whether there is one.
pub record Message : Type 0 where
  pub sender : Option ℤ
  pub chat : ℤ
  pub is_private : Bool
  pub text : Bytes
  pub caption : Bytes
  pub has_media : Bool

unfoldable pub message_body : Message → Bytes
message_body m = if is_empty m.text then m.caption else m.text

abbrev pub is_none {ℓ} : {A : Type ℓ} → Option A → Bool
is_none none = true
is_none (some a) = false

unfoldable pub should_skip_incoming_message : Message → Bool
should_skip_incoming_message m =
    if is_empty (message_body m) || is_none m.sender
    then true
    else has_prefix (message_body m) (codes "/")

unfoldable pub extract_message_links : Expressions → Message → List ParsedLink
extract_message_links E m = extract_urls E (message_body m)

-- `onDirectMedia`
unfoldable pub on_direct_media : Message → List Reply
on_direct_media m =
    if is_none m.sender || not m.has_media
    then []
    else if has_prefix m.caption (codes "/")
    then []
    else send (codes "errors.send_link") none ∷ []

-- seconds; five minutes where the setting is not positive
unfoldable pub spam_window : ℤ → ℕ
spam_window (pos zero) = 5 * 60
spam_window (pos (suc n)) = suc n
spam_window (negsuc n) = 5 * 60

module _ (R : Redis) (c : Client) where
  -- whether the message is stopped, with what is sent; an error of the check lets it pass
  unfoldable pub check_banned : ℤ → ℤ → Message → R.State → Bool × List Reply
  check_banned admin_id user m r =
      if is_admin admin_id user then (false, []) else elim (is_user_banned R user r) [
        | none ↦ (false, [])
        | some false ↦ (false, [])
        | some true ↦ (
          true,
          send (codes "ban.shadow_reply") none
              ∷ (if eq_ℤ admin_id (pos 0)
                  then []
                  else notify_admin (codes "ban.admin_notice")
                    ∷ (if is_empty m.text then [] else forward ∷ [])),
        )
      ]

  module _ (hash : Bytes → Bytes) (link_banned : Bytes → Option Bool) where
    -- the loop over the links; an error of a check lets the link pass
    unfoldable pub group_links : ℕ → List ParsedLink → R.State → Bool × R.State
    group_links window [] r = (true, r)
    group_links window (link ∷ links) r =
        let (reply, r') = allow_url_dedup R c (hash link.url) window r in
        let rest = group_links window links r' in
        let checked : Bool × R.State = elim reply [
          | none ↦ rest
          | some true ↦ rest
          | some false ↦ (false, r')
        ] in
        elim (link_banned (hash link.url)) [
          | none ↦ checked
          | some true ↦ (false, r)
          | some false ↦ checked
        ]

    unfoldable pub allow_group_links : Expressions → ℤ → Message → R.State → Bool × R.State
    allow_group_links E window_sec m r =
        if m.is_private || is_empty (message_body m)
        then (true, r)
        else group_links (spam_window window_sec) (extract_message_links E m) r
