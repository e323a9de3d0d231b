-- ===== src/Update/SignOn.antt =====
-- The first round of `update`: the node signs on with its configuration.
use steamlink_arduino.Prelude.{true}
use steamlink_arduino.Wire.RoundTrip
use steamlink_arduino.Wire.Op
use steamlink_arduino.Wire.Slid
use steamlink_arduino.System.{System, Ref, node, put}

abbrev signed_on : Ref → System → System
signed_on self s = put self (record (node self s) { sign_on_complete = true }) s
