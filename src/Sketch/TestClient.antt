-- ===== src/Sketch/TestClient.antt =====
-- examples/SL_testclient0/SL_testclient0.ino: a node on LoRa that sends a message now and then. What
-- is printed, and the LED that lights while a message is sent, are left out. A fault ends the model
-- where the sketch reads past a buffer.
use steamlink_arduino.Prelude.{
  ℕ, ◌+◌, ◌*◌, ◌/◌, Bool, true, false, List, [], ◌∷◌, ◌++◌, Option, none, some, ◌&&◌, ◌||◌, ltb,
  ◌==◌, not, if◌then◌else◌, length, drop, replicate,
}
use steamlink_arduino.Prelude.Text.{codes, decimal, read_decimal}
use steamlink_arduino.Prelude.Options
use steamlink_arduino.Prelude.Startup
use steamlink_arduino.Prelude.Startup.{Startup, ready}
use steamlink_arduino.Wire.{u32, NodeCfgStruct}
use steamlink_arduino.System.{Env, Delivery, Fault, returns, faults, M, ◌>>=◌, pure, millis}
use steamlink_arduino.Lora.Setup.{Board, LoraConfig, LoraFields, set_pins, init, sizeof_lora_config}
use steamlink_arduino.Mqtt.Topic.{snprintf}
use steamlink_arduino.Interface.{Methods}

abbrev pub sl_id : ℕ
sl_id = 0x105

abbrev pub min_tx_gap : ℕ
min_tx_gap = 125

abbrev pub text_field : ℕ → List ℕ → List ℕ
text_field size text = text ++ replicate size 0

-- `config`, with the floats as their bits
abbrev pub config : NodeCfgStruct
config = record {
  version = 1;
  slid = sl_id;
  name = text_field 3 (codes "Node261");
  description = text_field 20 (codes "TestNode 261");
  gps_lat = 1110292562;
  gps_lon = 3265164739;
  altitude = 180;
  max_silence = 45;
  battery_powered = 0;
  radio_params = 1;
}

abbrev pub slconfig : LoraConfig
slconfig = record { encrypted = false; key = []; mod_conf = 0 }

-- The sketch's variables. `next_send_time` is what the comparison with `millis` makes of the `int`.
pub record Client : Type 0 where
  pub packet_num : ℕ
  pub b_last : ℕ
  pub b_current : ℕ
  pub next_send_time : ℕ
  pub wait_interval : ℕ
  pub led : Bool

-- the variables once `setup` has run: it lights the LED and sets `bLast`
abbrev pub started : Client
started = record {
  packet_num = 0;
  b_last = 2;
  b_current = 2;
  next_send_time = 0;
  wait_interval = 10000;
  led = true;
}

-- `setup`: the pins of the board and the radio; what is left then is to register the handler.
unfoldable pub setup :
    {W D : Type 0} → Board W → Methods D → LoraFields → W → Startup (LoraFields × W × M (Unit {0}))
setup board sl d w =
    Startup.◌>>=◌ (init board slconfig sizeof_lora_config (set_pins 8 4 3 d) w)
      (λ (d', w'). ready (d', w', sl.register_receive_handler))

abbrev pub is_space : ℕ → Bool
is_space c = c == 32 || (not (ltb c 9) && not (ltb 13 c))

-- `atoi` of a buffer with a NUL: whether the number is negative, and its size
unfoldable pub atoi : List ℕ → Bool × ℕ
atoi [] = (false, 0)
atoi (c ∷ cs) =
    let rest = atoi cs in
    if is_space c
    then rest
    else if c == 45
    then (true, read_decimal 0 cs)
    else if c == 43
    then (false, read_decimal 0 cs)
    else (false, read_decimal 0 (c ∷ cs))

-- `MAX(MINTXGAP, v)`
abbrev pub at_least_gap : Bool × ℕ → ℕ
at_least_gap (negative, v) =
    if negative then min_tx_gap else if ltb v min_tx_gap then min_tx_gap else v

abbrev pub has_nul : List ℕ → Bool
has_nul [] = false
has_nul (c ∷ cs) = let rest = has_nul cs in c == 0 || rest

-- The handler prints the buffer as a string, and reads a number in it. `none` is a string that does
-- not end in the buffer, or a number beyond `int`.
unfoldable pub sl_on_receive : List ℕ → Client → Option Client
sl_on_receive buf c =
    let (negative, v) = atoi buf in
    if not (has_nul buf)
    then none
    else if ltb 2147483647 v
    then none
    else if v == 0
    then some (record c { led = false })
    else if v == 1 && not negative
    then some (record c { led = true })
    else some (record c { wait_interval = at_least_gap (negative, v) })

-- the handler's calls during an `update`
unfoldable pub receive_all : List Delivery → Client → Option Client
receive_all [] c = some c
receive_all (d ∷ ds) c = Options.◌>>=◌ (sl_on_receive d.buffer c) (receive_all ds)

-- the text that `loop` puts into `data`, with the new packet number; the button's pin is LOW, 0,
-- when it is pressed
unfoldable pub message : Client → ℕ → List ℕ
message c millivolts =
    if not (c.b_current == c.b_last)
    then snprintf 100 (
        codes "Button "
        ++ (decimal (if c.b_current == 0 then 1 else 0)
            ++ (codes " pkt: " ++ decimal c.packet_num)))
    else snprintf 100 (
        codes "Hello World! pkt: "
        ++ (decimal c.packet_num ++ (codes " vBat: " ++ (decimal millivolts ++ codes "mV"))))

-- The battery's voltage in mV, of a reading of the pin. For the readings of a pin of up to 12 bits the
-- product in floating point, cut to an `int`, is this one.
unfoldable pub get_bat_info : ℕ → ℕ
get_bat_info reading = reading * 645 / 100

module _ {D : Type 0} (env : Env) (sl : Methods D) where
  -- the part of `loop` under its test
  unfoldable pub send_message : ℕ → Client → M Client
  send_message reading c = do
    let c' = record c { packet_num = c.packet_num + 1 }
    before_time ← millis env
    rc ← sl.send (message c' (get_bat_info reading))
    after_time ← (if rc then millis env else pure 0)
    now ← millis env
    pure (record c' { b_last = c.b_current; next_send_time = u32 (now + c.wait_interval) })

  -- `loop`, with what `digitalRead` and `analogRead` give in this round
  unfoldable pub loop : ℕ → ℕ → D → Client → M (D × Client)
  loop button reading d c = do
    before ← (λ s. returns s.delivered s)
    d' ← sl.update d
    after ← (λ s. returns s.delivered s)
    c1 ← (λ s. elim (receive_all (drop (length before) after) c) [
      | none ↦ faults Fault.read_out_of_range
      | some c' ↦ returns c' s
    ])
    let c2 = record c1 { b_current = button }
    now ← millis env
    if ltb c2.next_send_time now || not (c2.b_current == c2.b_last)
        then (do c3 ← send_message reading c2; pure (d', c3))
        else pure (d', c2)
