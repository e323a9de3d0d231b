-- ===== src/Sketch/PahoClient.antt =====
-- examples/SL_pahoclient0/SL_pahoclient0.cpp: a node on Unix that sends a message whenever more than
-- `send_every_secs` of processor time have passed. Times are in ticks of `std::clock`, of which
-- `CLOCKS_PER_SEC` is a million; each round reads the clock once.
use steamlink_arduino.Prelude.{
  ℕ, ◌+◌, ◌-◌, ◌*◌, ◌≤◌, Bool, true, Bool-cases, inl, inr, List, [], ◌∷◌, ◌++◌, arith, ltb, ltb→lt,
  if◌then◌else◌,
}
use steamlink_arduino.Prelude.Text.{codes}
use steamlink_arduino.Prelude.Startup
use steamlink_arduino.Prelude.Startup.{Startup, ready}
use steamlink_arduino.Wire.{NodeCfgStruct}
use steamlink_arduino.Debug.{Build, Item, infonl, say}
use steamlink_arduino.System.{M, ◌>>=◌, pure}
use steamlink_arduino.Interface.{Methods}
use steamlink_arduino.Mqtt.Paho.Setup.{PahoConfig, PahoFields, Library, init, sizeof_paho_config}
use steamlink_arduino.Sketch.TestClient.{text_field}

abbrev pub sl_id_paho : ℕ
sl_id_paho = 0x158

abbrev pub paho_config : NodeCfgStruct
paho_config = record {
  version = 1;
  slid = sl_id_paho;
  name = text_field 3 (codes "PahoMac");
  description = text_field 18 (codes "Running on Mac");
  gps_lat = 1110292562;
  gps_lon = 3265164739;
  altitude = 180;
  max_silence = 45;
  battery_powered = 0;
  radio_params = 1;
}

-- 0.01 seconds
abbrev pub send_every : ℕ
send_every = 10000

-- what `main` does before its loop
unfoldable pub start :
    {W D : Type 0}
    → Library W
    → Methods D
    → PahoConfig
    → PahoFields
    → W
    → Startup (PahoFields × W × List Item × M (Unit {0}))
start lib slpaho sl_paho_config d w =
    Startup.◌>>=◌ (init lib sl_paho_config sizeof_paho_config d w)
      (λ (d', w', printed). ready (d', w', printed, slpaho.register_receive_handler))

-- the test of the loop, and `lastsent` behind it
unfoldable pub is_due : ℕ → ℕ → Bool
is_due lastsent now = ltb send_every (now - lastsent)

unfoldable pub next_lastsent : ℕ → ℕ → ℕ
next_lastsent lastsent now = if is_due lastsent now then now else lastsent

-- one round of the loop, at a reading of the clock
unfoldable pub main_round : {D : Type 0} → Methods D → ℕ → D → ℕ → M (D × ℕ)
main_round slpaho now d lastsent = do
  sent ← (if is_due lastsent now then slpaho.send (codes "Hello World!" ++ (0 ∷ [])) else pure true)
  d' ← slpaho.update d
  pure (d', next_lastsent lastsent now)

unfoldable pub main_loop : {D : Type 0} → Methods D → List ℕ → D → ℕ → M (D × ℕ)
main_loop slpaho [] d lastsent = pure (d, lastsent)
main_loop slpaho (now ∷ later) d lastsent = do
  (d', lastsent') ← main_round slpaho now d lastsent
  main_loop slpaho later d' lastsent'

unfoldable pub paho_on_receive : Build → List ℕ → ℕ → List Item
paho_on_receive b buf len = infonl b (say "received")

-- how many messages a run of the loop sends, by the readings of the clock
abbrev pub sends : ℕ → List ℕ → ℕ
sends lastsent [] = 0
sends lastsent (now ∷ later) =
    (if is_due lastsent now then 1 else 0) + sends (next_lastsent lastsent now) later

-- The readings never fall, from `before` on.
abbrev pub Rising : ℕ → List ℕ → Type 0
Rising before [] = Unit
Rising before (now ∷ later) = (before ≤ now) × Rising now later

abbrev pub last : ℕ → List ℕ → ℕ
last before [] = before
last before (now ∷ later) = last now later

sends_from :
    (lastsent before : ℕ) (readings : List ℕ)
    → lastsent ≤ before
    → Rising before readings
    → sends lastsent readings * 10001 + lastsent ≤ last before readings
unfolding is_due next_lastsent
sends_from lastsent before [] l r = omega (arith, l)
sends_from lastsent before (now ∷ later) l (m, r) =
    elim (Bool-cases (ltb send_every (now - lastsent))) [
      | inl e ↦ rw e (
          omega
            (arith, sends_from now now later (omega arith) r, ltb→lt send_every (now - lastsent) e))
      | inr e ↦ rw e (omega (arith, sends_from lastsent now later (omega (arith, l, m)) r))
    ]

-- However often the loop runs, it sends at most one message for each hundredth of a second of
-- processor time that has passed since it started.
pub sends_bounded :
    (started : ℕ) (readings : List ℕ)
    → Rising started readings
    → sends started readings * 10000 ≤ last started readings - started
sends_bounded started readings r =
    omega (arith, sends_from started started readings (omega arith) r)
