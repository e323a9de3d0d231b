-- ===== src/Sound.antt =====
-- What the two objects of a board keep, whatever the code does, and the conditions under which a
-- method ends without undefined behaviour. `Ensures` is such a condition on a method, and there is
-- one lemma for each way in which a method is put together. The children follow the code function
-- by function.
pub mod Sends
pub mod Packets
pub mod Rounds
pub mod Alone
use steamlink_arduino.Prelude.{
  ℕ, ◌+◌, ◌≤◌, ◌<◌, ◌^◌, ◌≡◌, ◌≢◌, ◌⊎◌, inl, inr, refl, Bool, true, false, List, [], ◌∷◌, ◌++◌,
  arith, if◌then◌else◌, length, set, take, drop, length-append, length-take, length-drop,
}
use steamlink_arduino.Wire.{NodeCfgStruct, byte_at}
use steamlink_arduino.Ring.{Relement, RingBuff}
use steamlink_arduino.Ring.Refine.{IsValid}
use steamlink_arduino.System.{
  BridgeMode, unbridged, Env, System, Node, Ref, store_driver, node_driver, node, Outcome, returns,
  faults, resets, out_of_fuel, Fault, M, ◌>>=◌, ◌>>◌, pure, free, malloc, millis, memcpy, this,
  when, modify, read_byte, deliver,
}
use steamlink_arduino.Send.Packet.{length-fill}

-- A packet of `len` bytes in a buffer of at most 255.
pub record IsPacket (packet : List ℕ) (len : ℕ) : Type 0 where
  pub within : len ≤ length packet
  pub size : length packet ≤ 255

-- every slot of a ring holds a packet
abbrev pub AllPackets : List Relement → Type 0
AllPackets [] = Unit {0}
AllPackets (e ∷ es) = IsPacket e.pkt e.len × AllPackets es

-- a send queue: a valid ring, whose packets lie within their buffers
pub record IsQueue (q : RingBuff) : Type 0 where
  pub ring_IsValid : IsValid q
  pub packets : AllPackets q.ring

-- a retry buffer of full size, with a packet in it whenever an acknowledgement is awaited
pub record IsRetry (packet : List ℕ) (len : ℕ) (waiting : Bool) : Type 0 where
  pub retry_size : length packet ≡ 255
  pub retry_in : len < 256
  pub cached : waiting ≡ true → 8 ≤ len

-- What an object keeps in its fields: how it is bridged, and that its handler is set if it is; its
-- send queue; the arrays of its configuration; a packet number from 1 to 65535; its retry buffer.
pub record Side (mode current : BridgeMode) (handler : Bool) (q : RingBuff) (config : NodeCfgStruct)
    (count : ℕ) (packet : List ℕ) (len : ℕ) (waiting : Bool) : Type 0 where
  pub keeps_mode : current ≡ mode
  pub has_handler : mode ≢ unbridged → handler ≡ true
  pub queue : IsQueue q
  pub arrays : (length config.name ≡ 10) × (length config.description ≡ 32)
  pub count_in : (0 < count) × (count < 2 ^ 16)
  pub retry : IsRetry packet len waiting

abbrev pub IsSide : BridgeMode → Node → Type 0
IsSide mode n =
    Side mode n.bridge_mode n.bridge_handler n.send_q n.config n.pkt_count_data n.retry_packet
      n.retry_packet_length n.waiting_for_ack

-- How the objects of a board are bridged, and whether undefined behaviour is put up with.
pub record Setting : Type 0 where
  pub tolerant : Bool
  pub mode_of : Ref → BridgeMode

abbrev pub IsSound : Setting → System → Type 0
IsSound t s =
    IsSide (t.mode_of store_driver) s.store_side × IsSide (t.mode_of node_driver) s.node_side

-- what has to hold where undefined behaviour is not put up with
abbrev pub Excused : Setting → Type 0 → Type 0
Excused t X = (t.tolerant ≡ true) ⊎ X

pub excuse : (t : Setting) {X Y : Type 0} → Excused t X → (X → Y) → Excused t Y
excuse t (inl e) f = inl e
excuse t (inr x) f = inr (f x)

unfoldable pub Ends : Setting → {A : Type 0} → (A → Type 0) → Outcome A → Type 0
Ends t P (returns a s) = P a × IsSound t s
Ends t P (faults e) = t.tolerant ≡ true
Ends t P resets = Unit {0}
Ends t P out_of_fuel = ⊥

-- From a sound state the method ends, in a sound state and with such a result if it returns.
pub record Ensures (t : Setting) {A : Type 0} (P : A → Type 0) (m : M A) : Type 0 where
  pub run : (s : System) → IsSound t s → Ends t P (m s)

-- no condition on the result
abbrev pub Any : {A : Type 0} → A → Type 0
Any a = Unit {0}

bind_outcome :
    (t : Setting) {A B : Type 0} {P : A → Type 0} (Q : B → Type 0) (r : Outcome A) (f : A → M B)
    → Ends t P r
    → ((a : A) → P a → Ensures t Q (f a))
    → Ends t Q (elim r [
      | returns a s' ↦ f a s'
      | faults e ↦ faults e
      | resets ↦ resets
      | out_of_fuel ↦ out_of_fuel
    ])
unfolding Ends
bind_outcome t Q (returns a s) f p q = (q a p.0).run s p.1
bind_outcome t Q (faults e) f p q = p
bind_outcome t Q resets f p q = tt
bind_outcome t Q out_of_fuel f p q = elim p [ ]

weaken_outcome :
    (t : Setting) {A : Type 0} {P : A → Type 0} (Q : A → Type 0) (r : Outcome A)
    → Ends t P r
    → ((a : A) → P a → Q a)
    → Ends t Q r
unfolding Ends
weaken_outcome t Q (returns a s) p q = (q a p.0, p.1)
weaken_outcome t Q (faults e) p q = p
weaken_outcome t Q resets p q = tt
weaken_outcome t Q out_of_fuel p q = elim p [ ]

module _ {t : Setting} where
  pub bind :
      {A B : Type 0} {P : A → Type 0} {Q : B → Type 0} (m : M A) (f : A → M B)
      → Ensures t P m
      → ((a : A) → P a → Ensures t Q (f a))
      → Ensures t Q (m >>= f)
  bind {P = P} {Q = Q} m f p q = record {
    run = λ s v. bind_outcome t {P = P} Q (m s) f (p.run s v) q;
  }

  pub step :
      {B : Type 0} {Q : B → Type 0} (m : M (Unit {0})) (k : M B)
      → Ensures t Any m
      → Ensures t Q k
      → Ensures t Q (m >> k)
  step m k p q = bind m (λ u. k) p (λ u h. q)

  pub weaken :
      {A : Type 0} {P Q : A → Type 0} {m : M A}
      → Ensures t P m
      → ((a : A) → P a → Q a)
      → Ensures t Q m
  weaken {P = P} {Q = Q} {m = m} p q = record {
    run = λ s v. weaken_outcome t {P = P} Q (m s) (p.run s v) q;
  }

  pub pure_ends : {A : Type 0} {P : A → Type 0} (a : A) → P a → Ensures t P (pure a)
  unfolding Ends
  pure_ends a p = record { run = λ s v. (p, v) }

  -- a call whose result is not used
  pub ignored : {A : Type 0} (m : M A) → Ensures t Any m → Ensures t Any (m >>= (λ sent. pure tt))
  ignored m p = bind m (λ sent. pure tt) p (λ sent h. pure_ends tt tt)

  pub fault_ends :
      {A : Type 0} {P : A → Type 0} (e : Fault)
      → t.tolerant ≡ true
      → Ensures t {A = A} P (λ s. faults e)
  unfolding Ends
  fault_ends e h = record { run = λ s v. h }

  pub reset_ends : {A : Type 0} {P : A → Type 0} → Ensures t {A = A} P (λ s. resets)
  unfolding Ends
  reset_ends = record { run = λ s v. tt }

  pub malloc_ends : (env : Env) (n : ℕ) → Ensures t (λ b. length b ≡ n) (malloc env n)
  unfolding Ends
  malloc_ends env n = record { run = λ s v. (length-fill (env.uninitialised s.allocated) n, v) }

  pub millis_ends : (env : Env) → Ensures t Any (millis env)
  unfolding Ends
  millis_ends env = record { run = λ s v. (tt, v) }

  pub free_ends : Ensures t Any free
  unfolding Ends
  free_ends = record { run = λ s v. (tt, v) }

  pub deliver_ends : (self : Ref) (b : List ℕ) → Ensures t Any (deliver self b)
  unfolding Ends
  deliver_ends self b = record { run = λ s v. (tt, v) }

  pub this_ends : (self : Ref) → Ensures t (IsSide (t.mode_of self)) (this self)
  unfolding Ends
  this_ends store_driver = record { run = λ s v. (v.0, v) }
  this_ends node_driver = record { run = λ s v. (v.1, v) }

  -- a change of an object
  pub modify_ends :
      (self : Ref) (f : Node → Node)
      → ((n : Node) → IsSide (t.mode_of self) n → IsSide (t.mode_of self) (f n))
      → Ensures t Any (modify self f)
  unfolding Ends
  modify_ends store_driver f h = record { run = λ s v. (tt, (h s.store_side v.0, v.1)) }
  modify_ends node_driver f h = record { run = λ s v. (tt, (v.0, h s.node_side v.1)) }

  pub test_ends :
      {A : Type 0} {P : A → Type 0} (b : Bool) (m k : M A)
      → Ensures t P m
      → Ensures t P k
      → Ensures t P (if b then m else k)
  test_ends true m k p q = p
  test_ends false m k p q = q

  pub when_ends :
      (b : Bool) (m : M (Unit {0})) → (b ≡ true → Ensures t Any m) → Ensures t Any (when b m)
  when_ends true m p = p refl
  when_ends false m p = pure_ends tt tt

  pub cases_ends :
      {A : Type 0} {P : A → Type 0} (b : Bool) (m k : M A)
      → (b ≡ true → Ensures t P m)
      → (b ≡ false → Ensures t P k)
      → Ensures t P (if b then m else k)
  cases_ends true m k p q = p refl
  cases_ends false m k p q = q refl

-- What a copy that does not fault leaves in the buffer.
pub record IsCopy (dst : List ℕ) (at : ℕ) (src : List ℕ) (n : ℕ) (b : List ℕ) : Type 0 where
  pub content : b ≡ take at dst ++ (take n src ++ drop (at + n) dst)
  pub source : n ≤ length src
  pub room : at + n ≤ length dst

pub length-copy : {dst src b : List ℕ} {at n : ℕ} → IsCopy dst at src n b → length b ≡ length dst
length-copy {dst} {src} {b} {at} {n} c = rw c.content (
    omega (
      arith,
      length-append (take at dst) (take n src ++ drop (at + n) dst),
      length-append (take n src) (drop (at + n) dst),
      length-take at dst,
      length-take n src,
      length-drop (at + n) dst,
      c.source,
      c.room,
    ))

module _ {t : Setting} where
  pub memcpy_ends :
      (dst : List ℕ) (at : ℕ) (src : List ℕ) (n : ℕ)
      → Excused t ((n ≤ length src) × (at + n ≤ length dst))
      → Ensures t (IsCopy dst at src n) (memcpy dst at src n)
  unfolding Ends memcpy
  memcpy_ends dst at src n (inl e) = record { run = λ s v. ground arith }
  memcpy_ends dst at src n (inr h) = record { run = λ s v. ground arith }

  pub read_byte_ends :
      (b : List ℕ) (i : ℕ)
      → Excused t (i < length b)
      → Ensures t (λ v. v ≡ byte_at b i) (read_byte b i)
  unfolding Ends read_byte
  read_byte_ends b i (inl e) = record { run = λ s v. ground arith }
  read_byte_ends b i (inr h) = record { run = λ s v. ground arith }
