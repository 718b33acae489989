-- ===== src/Notifier/Slack/Send.antt =====
-- The sending of a notification: `Notifier.send` of notifier/slack/slack.go, and the notifier as a
-- whole.
use aragorn.Prelude.{Str, ℕ, ◌==◌, Option, none, some, ◌⊎◌, inl, inr, if◌then◌else◌}
use aragorn.Notifier.{Notifier}
use aragorn.Notifier.Slack.{Config, Notification, Print, notify}

-- The errors that `send` logs.
pub data SendError : Type 0 where
  no_json no_answer no_body failed : Str → SendError

-- Packages encoding/json and net/http, and the log. `post` gives an error, or the status code and
-- the body or an error of reading it; `webhook` is where the configuration sends to.
pub record Channel (W : Type 0) : Type 0 where
  pub webhook : Str
  pub marshal : Notification → Str ⊎ Str
  pub post : Str → Str → W → (Str ⊎ (ℕ × (Str ⊎ Str))) × W
  pub log : SendError → W → W

module _ {W : Type 0} (c : Channel W) where
  read_status : ℕ → Str ⊎ Str → W → W
  read_status code (inl e) w = c.log (no_body e) w
  read_status code (inr body) w = if code == 200 then w else c.log (failed body) w

  posted : (Str ⊎ (ℕ × (Str ⊎ Str))) × W → W
  unfolding read_status
  posted (inl e, w) = c.log (no_answer e) w
  posted (inr (code, body), w) = read_status code body w

  sent_bytes : Str ⊎ Str → W → W
  unfolding posted
  sent_bytes (inl e) w = c.log (no_json e) w
  sent_bytes (inr b) w = posted (c.post c.webhook b w)

  -- `Notifier.send`
  unfoldable pub send : Notification → W → W
  unfolding sent_bytes
  send n w = sent_bytes (c.marshal n) w

  send_some : Option Notification → W → W
  unfolding send
  send_some none w = w
  send_some (some n) w = send n w

  -- `Notifier.Notify`, with what it sends.
  unfoldable pub slack_notifier : Print → Config → Notifier W
  unfolding send_some
  slack_notifier p cfg r w = send_some (notify p cfg r) w
