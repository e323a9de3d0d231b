-- ===== src/Sound/Alone.antt =====
-- A node that stands alone, in the hands of a sketch that sends texts and calls `update`.
use steamlink_arduino.Prelude.{
  ℕ, ◌+◌, ◌%◌, ◌≤◌, ◌<◌, ◌≡◌, refl, inr, false, List, [], ◌∷◌, ◌++◌, length, replicate, zero, suc,
  arith, length-append,
}
use steamlink_arduino.Wire.{NodeCfgStruct, is_data}
use steamlink_arduino.Wire.Op
use steamlink_arduino.Ring
use steamlink_arduino.Ring.{blank}
use steamlink_arduino.Ring.Refine
use steamlink_arduino.Node
use steamlink_arduino.System.{unbridged, Env, System, Ref, M, ◌>>=◌, pure}
use steamlink_arduino.Send.{Handler, send}
use steamlink_arduino.Send.Limits.{IsText, send_string-length}
use steamlink_arduino.Update.{Driver, update}
use steamlink_arduino.Sound.{
  Setting, IsSide, IsSound, AllPackets, Ends, Ensures, Any, bind, pure_ends,
}
use steamlink_arduino.Sound.Sends.{way-unbridged, generic_send_ends, send_data_ends}
use steamlink_arduino.Sound.Rounds.{Sends, sends_data, Delivers, update_ends}

abbrev pub standalone : Setting
standalone = record { tolerant = false; mode_of = λ self. unbridged }

-- what the sketch does: a call of `update`, or of `send` with a text and what stands behind it
pub data Act : Type 0 where
  round : Act
  text : List ℕ → List ℕ → Act

-- A text that fits a packet, its terminator included.
abbrev pub IsShort : Act → Type 0
IsShort round = Unit {0}
IsShort (text t rest) = IsText t × (length t ≤ 246)

abbrev pub AllShort : List Act → Type 0
AllShort [] = Unit {0}
AllShort (a ∷ as') = IsShort a × AllShort as'

module _ (env : Env) (handler : Handler) (self : Ref) where
  abbrev pub act : {D : Type 0} → Driver D → Act → D → M D
  act driver round d = update env handler driver self d
  act driver (text t rest) d = send env handler self (t ++ (0 ∷ rest)) >>= (λ sent. pure d)

  abbrev pub acts : {D : Type 0} → Driver D → List Act → D → M D
  acts driver [] d = pure d
  acts driver (a ∷ rest) d = act driver a d >>= acts driver rest

  -- It never calls a bridge.
  alone_sends : Sends standalone env handler self
  alone_sends = record {
    owner = inr refl;
    sends = λ packet len slid p x.
        generic_send_ends standalone env handler self packet len slid p x
          (λ e. absurd (way-unbridged _ unbridged e refl));
  }

  send_ends :
      (t rest : List ℕ)
      → IsText t
      → length t ≤ 246
      → Ensures standalone Any (send env handler self (t ++ (0 ∷ rest)))
  unfolding send is_data
  send_ends t rest x l = record {
    run = λ s v. rw (send_string-length env handler self Op.ds t rest s x) (
        (send_data_ends standalone env handler self
            (sends_data standalone env handler self alone_sends) Op.ds (t ++ (0 ∷ rest))
            ((length t + 1) % 256) refl
            (inr (omega (arith, length-append t (0 ∷ rest)), omega arith))).run
          s v);
  }

  acts_end :
      {D : Type 0} (driver : Driver D) (Inv : D → Type 0) (as' : List Act) (d : D)
      → Delivers standalone Inv driver
      → AllShort as'
      → Inv d
      → Ensures standalone Inv (acts driver as' d)
  acts_end driver Inv [] d h l i = pure_ends d i
  acts_end driver Inv (round ∷ rest) d h l i =
      bind (update env handler driver self d) _
        (update_ends standalone env handler self alone_sends driver Inv d h i)
        (λ d' i'. acts_end driver Inv rest d' h l.1 i')
  acts_end driver Inv (text t z ∷ rest) d h l i =
      bind (act driver (text t z) d) _
        (bind (send env handler self (t ++ (0 ∷ z))) _ (send_ends t z l.0.0 l.0.1)
          (λ sent u. pure_ends d i))
        (λ d' i'. acts_end driver Inv rest d' h l.1 i')

AllPackets-replicate : (n : ℕ) → AllPackets (replicate n blank)
AllPackets-replicate zero = tt
AllPackets-replicate (suc n) =
    (record { within = omega arith; size = omega arith }, AllPackets-replicate n)

-- An object is made sound: whatever memory holds in the fields that the constructor does not set.
pub new-IsSide :
    (config : NodeCfgStruct) (packet : List ℕ) (len slid : ℕ)
    → length config.name ≡ 10
    → length config.description ≡ 32
    → length packet ≡ 255
    → len < 256
    → IsSide unbridged (Node.new config packet len slid)
unfolding Node.new Ring.new
new-IsSide config packet len slid n d l b = record {
  keeps_mode = refl;
  has_handler = λ u. absurd (u refl);
  queue = record {
    ring_IsValid = (Refine.new-IsValid 10 (omega arith)).0;
    packets = AllPackets-replicate 10;
  };
  arrays = (n, d);
  count_in = (omega arith, omega arith);
  retry = record { retry_size = l; retry_in = b; cached = λ w. absurd (ground (arith, w)) };
}

-- Whatever a sketch does with a node that stands alone, sending texts of at most 246 characters
-- and calling `update`, and whatever packets of 7 to 247 bytes its driver hands over meanwhile, no
-- call reads or writes outside a buffer or calls a handler that is NULL: each one returns, unless
-- a packet resets the board, or the driver enters an endless loop. The driver itself is taken not
-- to leave a buffer, and not to wait for ever. The node stays sound: unbridged, with a send queue
-- that is a valid ring of packets that lie within their buffers, a packet number from 1 to 65535,
-- and a packet to send again whenever it waits for an acknowledgement. The driver's own invariant
-- is kept too.
pub acts-Ends :
    {D : Type 0} (env : Env) (handler : Handler) (self : Ref) (driver : Driver D) (Inv : D → Type 0)
    (as' : List Act) (d : D) (s : System)
    → Delivers standalone Inv driver
    → AllShort as'
    → Inv d
    → IsSound standalone s
    → Ends standalone Inv (acts env handler self driver as' d s)
acts-Ends env handler self driver Inv as' d s h l i v =
    (acts_end env handler self driver Inv as' d h l i).run s v
