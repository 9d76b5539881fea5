-- ===== src/Base/CopyLight.antt =====
-- A button that copies a text and says so for two seconds: the light, the timers that are to put it
-- out, and the text that the browser was asked to write.
use cocodb.Base.Tests.{if◌then◌else◌, ◌==◌}
use cocodb.Base.Text.{Text}
use Prim.Native.Nat.{ℕ, suc, ◌-◌}
use mathlib.Core.Bool.{Bool, true, false}
use mathlib.Core.Option.{Option, none, some}

pub record CopyLight : Type 0 where
  pub copied : Bool
  pub timers : ℕ
  pub asked : Option Text

abbrev pub no_copy : CopyLight
no_copy = record { copied = false; timers = 0; asked = none }

-- `navigator.clipboard` is there only in a secure context; elsewhere the handler throws on its first
-- line. The promise of `writeText` is dropped: the light goes on also where the browser will refuse.
-- Then `setCopied(true)` and a new timer; one that runs already is left alone.
unfoldable pub copy : (secure : Bool) → Text → CopyLight → CopyLight
copy secure t c =
    if secure then record { copied = true; timers = suc c.timers; asked = some t } else c

unfoldable pub copy_timer_fires : CopyLight → CopyLight
copy_timer_fires c = if c.timers == 0 then c else record c { copied = false; timers = c.timers - 1 }
