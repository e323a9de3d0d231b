-- ===== src/System.antt =====
-- The state of SteamLinkGeneric.h and the memory that its methods share. An object is one of two
-- drivers, as SteamLinkBridge.h knows them, and a method takes the `this` pointer as an argument.
-- A method that calls another object through the bridge finds its own fields changed afterwards.
use steamlink_arduino.Prelude.{
  ℕ, suc, ◌+◌, Bool, List, [], ◌∷◌, ◌++◌, if◌then◌else◌, ltb, take, drop, length,
}
use steamlink_arduino.Wire.{NodeCfgStruct, byte_at}
use steamlink_arduino.Ring.{RingBuff}

-- `enum BridgeMode` of SteamLink.h
pub data BridgeMode : Type 0 where
  unbridged storeside nodeside : BridgeMode

-- The fields of `SteamLinkGeneric`. A handler is registered or NULL: `bridge_handler` is the
-- bridge's router when set, and a call of the user's `on_receive` is a `Delivery`.
-- `_key` is NULL and never read, so it is left out.
pub record Node : Type 0 where
  pub config : NodeCfgStruct
  pub slid : ℕ
  pub on_receive : Bool
  pub bridge_handler : Bool
  pub encrypted : Bool
  pub pkt_count_data : ℕ
  pub pkt_count_control : ℕ
  pub last_rssi : ℕ
  pub bridge_mode : BridgeMode
  pub sign_on_complete : Bool
  pub last_send_time : ℕ
  pub retry_packet : List ℕ
  pub retry_packet_length : ℕ
  pub retry_slid : ℕ
  pub last_retry_time : ℕ
  pub waiting_for_ack : Bool
  pub send_q : RingBuff

-- the two objects that a bridge joins; a node without a bridge is either of them
pub data Ref : Type 0 where
  store_driver node_driver : Ref

-- a call of the user's handler: on which object, and with what
pub record Delivery : Type 0 where
  pub receiver : Ref
  pub buffer : List ℕ

-- `clock_reads` counts the calls of `millis`. `allocated` and `freed` count the packet buffers
-- that the code has allocated or been handed, and has given back.
pub record System : Type 0 where
  pub store_side : Node
  pub node_side : Node
  pub clock_reads : ℕ
  pub allocated : ℕ
  pub freed : ℕ
  pub delivered : List Delivery

-- What the platform supplies: the clock's successive readings, what stands in a fresh buffer
-- (by the buffer's number and the byte's place), and the value that a caller finds where a
-- function declared `bool` ends with no `return`.
pub record Env : Type 0 where
  pub clock : ℕ → ℕ
  pub uninitialised : ℕ → ℕ → ℕ
  pub no_return : System → Bool

-- what C leaves undefined, and the code reaches: an access outside a buffer, a call through NULL
pub data Fault : Type 0 where
  write_out_of_range read_out_of_range null_handler : Fault

-- `resets` is the endless loop that the watchdog ends.
pub data Outcome {ℓ} (A : Type ℓ) : Type ℓ where
  returns : A → System → Outcome A
  faults : Fault → Outcome A
  resets : Outcome A
  out_of_fuel : Outcome A

abbrev pub M {ℓ} : Type ℓ → Type ℓ
M A = System → Outcome A

infixl 5 ◌>>=◌ ◌>>◌
abbrev pub ◌>>=◌ {ℓ κ} : {A : Type ℓ} {B : Type κ} → M A → (A → M B) → M B
◌>>=◌ m f s = elim (m s) [
  | returns a s' ↦ f a s'
  | faults e ↦ faults e
  | resets ↦ resets
  | out_of_fuel ↦ out_of_fuel
]

abbrev pub ◌>>◌ {ℓ} : {B : Type ℓ} → M (Unit {0}) → M B → M B
m >> k = m >>= λ _. k

abbrev pub pure {ℓ} : {A : Type ℓ} → A → M A
pure a s = returns a s

-- the fields of an object, and a change of them
abbrev pub node : Ref → System → Node
node store_driver s = s.store_side
node node_driver s = s.node_side

abbrev pub put : Ref → Node → System → System
put store_driver n s = record s { store_side = n }
put node_driver n s = record s { node_side = n }

abbrev pub this : Ref → M Node
this self s = returns (node self s) s

abbrev pub modify : Ref → (Node → Node) → M (Unit {0})
modify self f s = returns tt (put self (f (node self s)) s)

abbrev pub fill : (ℕ → ℕ) → ℕ → List ℕ
fill f ℕ.zero = []
fill f (suc n) = f 0 ∷ fill (λ i. f (suc i)) n

-- a user's handler, called with a buffer
abbrev pub deliver : Ref → List ℕ → M (Unit {0})
deliver self b s =
    returns tt
      (record s { delivered = s.delivered ++ (record { receiver = self; buffer = b } ∷ []) })

abbrev pub free : M (Unit {0})
free s = returns tt (record s { freed = s.freed + 1 })

abbrev pub when : Bool → M (Unit {0}) → M (Unit {0})
when b m = if b then m else pure tt

module _ (env : Env) where
  abbrev pub millis : M ℕ
  millis s = returns (env.clock s.clock_reads) (record s { clock_reads = s.clock_reads + 1 })

  abbrev pub malloc : ℕ → M (List ℕ)
  malloc n s =
      returns (fill (env.uninitialised s.allocated) n) (record s { allocated = s.allocated + 1 })

-- `packet[i]`
unfoldable pub read_byte : List ℕ → ℕ → M ℕ
read_byte b i = if ltb i (length b) then pure (byte_at b i) else (λ s. faults read_out_of_range)

-- `memcpy(dst + at, src, n)`: the new content of the buffer `dst`. The code also copies within one
-- buffer, towards its start; that is taken byte by byte from the left.
unfoldable pub memcpy : List ℕ → ℕ → List ℕ → ℕ → M (List ℕ)
memcpy dst at src n =
    if ltb (length src) n
    then (λ s. faults read_out_of_range)
    else if ltb (length dst) (at + n)
    then (λ s. faults write_out_of_range)
    else pure (take at dst ++ (take n src ++ drop (at + n) dst))
