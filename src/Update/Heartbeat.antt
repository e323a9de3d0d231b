-- ===== src/Update/Heartbeat.antt =====
-- The second timer of `update`: a status packet after a long silence.
use steamlink_arduino.Prelude.{ℕ, ◌+◌, ◌*◌, ◌^◌, ◌<◌, ◌↔◌, ◌≡◌, true, arith}
use steamlink_arduino.Wire.Op
use steamlink_arduino.System.{System, Node}
use steamlink_arduino.Update.{heartbeat_due}

abbrev pub ticked : System → System
ticked s = record s { clock_reads = s.clock_reads + 1 }

-- The silence is measured in seconds; the sum wraps at 32 bits like the clock itself.
pub heartbeat_due_iff :
    (n : Node) (now : ℕ)
    → n.last_send_time + n.config.max_silence * 1000 < 2 ^ 32
    → (heartbeat_due n now ≡ true) ↔ (n.last_send_time + n.config.max_silence * 1000 < now)
unfolding heartbeat_due
heartbeat_due_iff n now h = (λ e. ground arith, λ e. ground arith)
