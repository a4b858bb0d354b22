-- ===== src/Notify/Growth.antt =====
-- The delivery of a callback moves rows along the state machine only.
use stask_service.Prelude.{ℕ, Text, Option, none, some, List}
use stask_service.Rows.{Row}
use stask_service.Service.{Callback, Reply, pure}
use stask_service.Service.Keeps.{Keeps, Keeps-pure, keeps_rules}
use stask_service.Store.Growth.{GrownFrom, grown_rules}
use stask_service.Sessions.Growth.{session_rules}
use stask_service.Notify.{
  Libraries, Settings, post, try_later, after_post, deliver_row, deliver_found, deliver,
}

module _ (rs : List Row) where
  post-Grown : (c : Callback) → Keeps (GrownFrom rs) (post c)
  unfolding post pure
  post-Grown c = record { at = λ w h. h }

  try_later-Grown : (tid : Text) (attempt : ℕ) → Keeps (GrownFrom rs) (try_later tid attempt)
  unfolding try_later
  try_later-Grown tid attempt = search (keeps_rules, grown_rules, session_rules) depth 12

  after_post-Grown :
      (tid : Text) (attempt : ℕ) (reply : Reply)
      → Keeps (GrownFrom rs) (after_post tid attempt reply)
  unfolding after_post
  after_post-Grown tid attempt reply = search (keeps_rules, grown_rules, try_later-Grown) depth 12

  module _ (lib : Libraries) (s : Settings) where
    deliver_row-Grown :
        (tid : Text) (attempt : ℕ) (r : Row)
        → Keeps (GrownFrom rs) (deliver_row lib s tid attempt r)
    unfolding deliver_row
    deliver_row-Grown tid attempt r =
        search (keeps_rules, grown_rules, post-Grown, after_post-Grown) depth 12

    deliver_found-Grown :
        (tid : Text) (attempt : ℕ) (o : Option Row)
        → Keeps (GrownFrom rs) (deliver_found lib s tid attempt o)
    unfolding deliver_found
    deliver_found-Grown tid attempt none = Keeps-pure _
    deliver_found-Grown tid attempt (some r) = deliver_row-Grown tid attempt r

    pub deliver-Grown :
        (tid : Text) (attempt : ℕ) → Keeps (GrownFrom rs) (deliver lib s tid attempt)
    unfolding deliver
    deliver-Grown tid attempt = search (keeps_rules, grown_rules, deliver_found-Grown) depth 12
