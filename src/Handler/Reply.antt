-- ===== src/Handler/Reply.antt =====
-- What a handler tells Telegram, through github.com/mymmrac/telego: the messages are named by their
-- keys in the locale, and the client's answers, which the handlers drop, are left out.
use saveinator.Prelude.{Bool, Option, Bytes}
use saveinator.Youtube.Session.{PendingSession}

pub data Reply : Type 0 where
  -- a callback query's answer, with a text or none, as an alert or not
  answer : Option Bytes → Bool → Reply
  -- the message's new text, and the callback payload of its button
  edit : Bytes → Option Bytes → Reply
  -- a new message, and the callback payload of its button
  send : Bytes → Option Bytes → Reply
  -- a photo, given by its address, under a caption; and a message that is not of the locale
  photo : Bytes → Bytes → Reply
  card : Bytes → Reply
  -- the message's buttons are taken away
  unbutton : Reply
  -- the message becomes the format card of the session
  format_card : PendingSession → Reply
  -- to the administrator: a message, and the user's own one
  notify_admin : Bytes → Reply
  forward : Reply
