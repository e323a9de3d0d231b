-- ===== src/Update.antt =====
-- `update` of SteamLinkGeneric.cpp, the body of the sketch's loop: sign on, receive one packet, send
-- one from the queue, and run the two timers. The radio or network is an argument.
pub mod Receive
pub mod Retry
pub mod Flush
pub mod Rounds
pub mod SignOn
pub mod Heartbeat
use steamlink_arduino.Prelude.{
  ℕ, ◌+◌, ◌*◌, Bool, true, false, List, Option, none, some, if◌then◌else◌, ltb, ◌==◌, not, ◌&&◌,
  ◌||◌,
}
use steamlink_arduino.Wire.{u32, is_data}
use steamlink_arduino.Wire.Op
use steamlink_arduino.Wire.Slid
use steamlink_arduino.Ring.{dequeue, queuelevel}
use steamlink_arduino.System.{
  unbridged, Node, Ref, Env, Fault, returns, faults, resets, out_of_fuel, M, ◌>>=◌, ◌>>◌, pure,
  this, modify, free, when, millis, malloc, memcpy, read_byte,
}
use steamlink_arduino.Send.{Handler, generic_send, send_on, send_ss, send_tr}
use steamlink_arduino.Admin.{handle_admin_packet, status_ok}

-- what `driver_receive` hands over: a buffer, its length, the SLID of its receiver, and the signal
-- strength that it stores in `_last_rssi`
pub record Reception : Type 0 where
  pub packet : List ℕ
  pub packet_size : ℕ
  pub slid : ℕ
  pub rssi : ℕ

-- How a call of `driver_receive` ends: with no packet, with one, or not at all, where the driver
-- enters an endless loop, leaves a buffer, or still waits when the fuel for that is out.
pub data Received : Type 0 where
  no_packet receive_hangs receive_waits : Received
  a_packet : Reception → Received
  receive_faults : Fault → Received

-- The virtual functions of a driver, over the driver's own state.
pub record Driver (D : Type 0) : Type 0 where
  pub driver_receive : D → D × Received
  pub driver_can_send : D → Bool
  pub driver_send : D → List ℕ → ℕ → ℕ → D × Bool

abbrev pub retry_time_ms : ℕ
retry_time_ms = 3000

-- the sanity check on a received packet, "bad OP" or "bad slid"
unfoldable pub is_problem : ℕ → ℕ → Bool
is_problem op slid =
    (ltb op Op.lowest || ltb Op.highest op)
    || (not (slid == 0) && (ltb slid Slid.lowest || ltb Slid.highest slid))

-- the two timer tests, at a reading of the clock
unfoldable pub retry_due : Node → ℕ → Bool
retry_due n now = ltb (u32 (n.last_retry_time + retry_time_ms)) now

unfoldable pub heartbeat_due : Node → ℕ → Bool
heartbeat_due n now = ltb (u32 (n.last_send_time + n.config.max_silence * 1000)) now

-- `SteamLinkGeneric`'s own driver: it receives nothing and sends nothing.
unfoldable pub generic_driver : {D : Type 0} → Driver D
generic_driver = record {
  driver_receive = λ d. (d, no_packet);
  driver_can_send = λ d. true;
  driver_send = λ d packet packet_size slid. (d, false);
}

-- one packet of the queue, where the driver can send
unfoldable pub flush_queue : {D : Type 0} → Driver D → Ref → D → M D
flush_queue driver self d = do
  n ← this self
  if driver.driver_can_send d && not (queuelevel n.send_q == 0)
      then elim (dequeue n.send_q).1 [
        | none ↦ pure d
        | some e ↦ (do
          modify self (λ n. record n { send_q = (dequeue n.send_q).0 })
          free
          pure (driver.driver_send d e.pkt e.len e.addr).0)
      ]
      else pure d

module _ (env : Env) (handler : Handler) where
  unfoldable pub sign_on_procedure : Ref → M (Unit {0})
  sign_on_procedure self = do sent ← send_on env handler self; pure tt

  unfoldable pub ensure_signed_on : Ref → M (Unit {0})
  ensure_signed_on self = do
    n ← this self
    when (not n.sign_on_complete)
        (do sign_on_procedure self; modify self (λ n. record n { sign_on_complete = true }))

  -- what is done with a received packet that passed the check
  unfoldable pub accept_packet : Ref → List ℕ → ℕ → ℕ → M (Unit {0})
  accept_packet self packet packet_length slid = do
    n ← this self
    op ← read_byte packet 0
    if not (slid == Slid.test_addr)
        then (if is_data op
            then elim n.bridge_mode [
              | unbridged ↦ free
              | _ ↦ handle_admin_packet env handler self packet packet_length
            ]
            else if slid == n.slid
            then handle_admin_packet env handler self packet packet_length
            else free)
        else (do sent ← send_tr env handler self packet packet_length; pure tt)

  -- The result is `false` where `update` returns early.
  unfoldable pub receive_packet : Ref → Received → M Bool
  receive_packet self no_packet = pure true
  receive_packet self receive_hangs = λ s. resets
  receive_packet self receive_waits = λ s. out_of_fuel
  receive_packet self (receive_faults e) = λ s. faults e
  receive_packet self (a_packet r) = do
    modify self (λ n. record n { last_rssi = r.rssi })
    λ s. returns tt (record s { allocated = s.allocated + 1 })
    op ← read_byte r.packet 0
    if is_problem op r.slid
        then (free >> pure false)
        else (accept_packet self r.packet r.packet_size r.slid >> pure true)

  unfoldable pub resend : Ref → M (Unit {0})
  resend self = do
    n ← this self
    fresh ← malloc env n.retry_packet_length
    packet ← memcpy fresh 0 n.retry_packet n.retry_packet_length
    now ← millis env
    modify self (λ n. record n { last_retry_time = now })
    sent ← generic_send env handler self packet n.retry_packet_length n.retry_slid
    pure tt

  -- `&&` reads the clock only while an acknowledgement is awaited.
  unfoldable pub retry_task : Ref → M (Unit {0})
  retry_task self = do
    n ← this self
    when n.waiting_for_ack (do now ← millis env; when (retry_due n now) (resend self))

  unfoldable pub heartbeat_task : Ref → M (Unit {0})
  heartbeat_task self = do
    n ← this self
    now ← millis env
    when (heartbeat_due n now) (do sent ← send_ss env handler self status_ok; pure tt)

  unfoldable pub run_timers : Ref → M (Unit {0})
  run_timers self = do retry_task self; heartbeat_task self

  unfoldable pub update : {D : Type 0} → Driver D → Ref → D → M D
  update driver self d = do
    ensure_signed_on self
    let received = driver.driver_receive d
    go_on ← receive_packet self received.1
    if go_on
        then (do d' ← flush_queue driver self received.0; run_timers self; pure d')
        else pure received.0
