-- ===== src/Send/Steps.antt =====
-- What each step of a send does to the state, as one equation: `generic_send` to the queue and to
-- the bridge, and `send_data` up to its call of `generic_send`.
use steamlink_arduino.Prelude.{
  ℕ, ◌+◌, ◌%◌, ◌≤◌, ◌<◌, ◌≡◌, refl, Bool, true, false, List, ◌++◌, ◌&&◌, arith, length, take, drop,
  if◌then◌else◌, not, ◌==◌,
}
use steamlink_arduino.Wire.{is_transport, needs_ack, is_data, byte_at}
use steamlink_arduino.Wire.Op
use steamlink_arduino.Wire.Slid
use steamlink_arduino.Ring.{enqueue}
use steamlink_arduino.System.{
  Env, System, Node, Ref, store_driver, node_driver, M, returns, node, put, ◌>>=◌, ◌>>◌, pure, free,
  when, modify, read_byte,
}
use steamlink_arduino.Send.{
  Handler, phy, bridge, way, next_count, cache_packet, generic_send, send_enqueue, to_bridge,
  send_packet, send_data,
}
use steamlink_arduino.Send.Packet.{
  IsWhole, IsWhole-lt, warnpkt_lem, read_byte_lem, packet_of, length-packet_of, build_packet_lem,
  memcpy_start,
}

pub >>=-returns {ℓ κ} :
    {A : Type ℓ} {B : Type κ} (m : M A) (f : A → M B) (s : System) {a : A} {s' : System}
    → m s ≡ returns a s'
    → (m >>= f) s ≡ f a s'
>>=-returns m f s e = rw (e, ◌>>=◌)

pub node-put : (self : Ref) (n : Node) (s : System) → node self (put self n s) ≡ n
node-put store_driver n s = refl
node-put node_driver n s = refl

-- The packet at the end of the object's queue, and the time of its last send noted.
abbrev pub queued : Ref → List ℕ → ℕ → ℕ → System → System
queued self packet len slid s =
    put self (record (node self s) { send_q = (enqueue (node self s).send_q packet len slid).0 }) s

abbrev pub stamped : Env → Ref → System → System
stamped env self s =
    put self (record (node self s) { last_send_time = env.clock s.clock_reads })
      (record s { clock_reads = s.clock_reads + 1 })

module _ (env : Env) (handler : Handler) where
  pub generic_send-phy :
      (self : Ref) (packet : List ℕ) (len slid : ℕ) (s : System)
      → IsWhole packet
      → way (is_data (byte_at packet 0)) (node self s).bridge_mode ≡ phy
      → generic_send env handler self packet len slid s
        ≡ returns
            (env.no_return (queued self packet len slid s))
            (stamped env self (queued self packet len slid s))
  unfolding generic_send read_byte send_enqueue
  generic_send-phy store_driver packet len slid s l w =
      rw (warnpkt_lem packet s l, read_byte_lem packet 0 s (IsWhole-lt packet l), w, ◌>>=◌) refl
  generic_send-phy node_driver packet len slid s l w =
      rw (warnpkt_lem packet s l, read_byte_lem packet 0 s (IsWhole-lt packet l), w, ◌>>=◌) refl

  pub generic_send-bridge :
      (self : Ref) (packet : List ℕ) (len slid : ℕ) (s s' : System)
      → IsWhole packet
      → way (is_data (byte_at packet 0)) (node self s).bridge_mode ≡ bridge
      → (node self s).bridge_handler ≡ true
      → handler packet len slid s ≡ returns tt s'
      → generic_send env handler self packet len slid s ≡ returns true (stamped env self s')
  unfolding generic_send read_byte to_bridge
  generic_send-bridge store_driver packet len slid s s' l w b h =
      ground (arith, warnpkt_lem packet s l, IsWhole-lt packet l)
  generic_send-bridge node_driver packet len slid s s' l w b h =
      ground (arith, warnpkt_lem packet s l, IsWhole-lt packet l)

-- The node with its packet counter moved on, unless the packet goes unnumbered.
abbrev pub numbered : ℕ → Node → Node
numbered op n = record n {
  pkt_count_data = if is_transport op then n.pkt_count_data else next_count n.pkt_count_data;
}

-- The node with the packet kept for a retry, at time `now`.
abbrev pub cached : List ℕ → ℕ → ℕ → Node → Node
cached packet len now n = record n {
  waiting_for_ack = true;
  retry_packet = take len packet ++ drop len n.retry_packet;
  retry_packet_length = len;
  retry_slid = Slid.store_addr;
  last_retry_time = now;
}

-- The state in which `send_data` calls `generic_send` with the packet of `k` payload bytes.
abbrev pub counted : Ref → ℕ → System → System
counted self op s = put self (numbered op (node self s)) (record s { allocated = s.allocated + 1 })

abbrev pub kept : Env → Ref → ℕ → List ℕ → ℕ → System → System
kept env self op packet len s =
    if needs_ack op
    then put self (cached packet len (env.clock s.clock_reads) (node self s))
        (record s { clock_reads = s.clock_reads + 1 })
    else s

abbrev pub prepared : Env → Ref → ℕ → List ℕ → ℕ → System → System
prepared env self op packet len s = kept env self op packet len (counted self op s)

-- what follows `generic_send`
abbrev pub finish : ℕ → Bool → M Bool
finish op sent = when (is_transport op) free >> pure sent

-- the test that makes `send_data` refuse a packet
abbrev pub is_blocked : ℕ → Node → Bool
is_blocked op n = n.waiting_for_ack && (not (is_transport op) && not (op == Op.acks))

module _ (env : Env) (handler : Handler) where
  pub cache_packet_lem :
      (self : Ref) (packet : List ℕ) (len : ℕ) (s : System)
      → len ≤ length packet
      → len ≤ length (node self s).retry_packet
      → cache_packet env self packet len s
        ≡ returns tt (
            put self
              (cached packet len (env.clock s.clock_reads) (node self s))
              (record s { clock_reads = s.clock_reads + 1 }))
  unfolding cache_packet
  cache_packet_lem store_driver packet len s p r =
      rw (memcpy_start (node store_driver s).retry_packet packet len s p r, ◌>>=◌)
  cache_packet_lem node_driver packet len s p r =
      rw (memcpy_start (node node_driver s).retry_packet packet len s p r, ◌>>=◌)

  number_step :
      (self : Ref) (op : ℕ) (s : System)
      → when
          (not (is_transport op))
          (modify self (λ n. record n { pkt_count_data = next_count n.pkt_count_data }))
          s
        ≡ returns tt (put self (numbered op (node self s)) s)
  number_step store_driver op s = ground arith
  number_step node_driver op s = ground arith

  cache_step :
      (self : Ref) (op : ℕ) (packet : List ℕ) (len : ℕ) (s : System)
      → len ≤ length packet
      → len ≤ length (node self s).retry_packet
      → when (needs_ack op) (cache_packet env self packet len) s
        ≡ returns tt (kept env self op packet len s)
  cache_step self op packet len s p r = ground (arith, cache_packet_lem self packet len s p r)

  pub send_packet_lem :
      (self : Ref) (op : ℕ) (payload : List ℕ) (k : ℕ) (s : System)
      → k ≤ length payload
      → k + 8 ≤ length (node self s).retry_packet
      → let packet = packet_of env s (node self s) op payload k in
        send_packet env handler self op payload k (k + 8) s
        ≡ (generic_send env handler self packet (k + 8) Slid.store_addr >>= finish op)
            (prepared env self op packet (k + 8) s)
  unfolding send_packet
  send_packet_lem store_driver op payload k s p r = rw (
    build_packet_lem env (node store_driver s) op payload k s p,
    number_step store_driver op (record s { allocated = s.allocated + 1 }),
    cache_step store_driver op (packet_of env s (node store_driver s) op payload k) (k + 8)
        (counted store_driver op s)
        (omega (arith, length-packet_of env s (node store_driver s) op payload k p)) r,
    ◌>>=◌,
  )
  send_packet_lem node_driver op payload k s p r = rw (
    build_packet_lem env (node node_driver s) op payload k s p,
    number_step node_driver op (record s { allocated = s.allocated + 1 }),
    cache_step node_driver op (packet_of env s (node node_driver s) op payload k) (k + 8)
        (counted node_driver op s)
        (omega (arith, length-packet_of env s (node node_driver s) op payload k p)) r,
    ◌>>=◌,
  )

  -- The guard of `send_data`: while an acknowledgement is awaited, only transport packets and
  -- acknowledgements go out.
  pub send_data-accepted :
      (self : Ref) (op : ℕ) (payload : List ℕ) (k : ℕ) (s : System)
      → is_blocked op (node self s) ≡ false
      → k + 8 < 256
      → send_data env handler self op payload k s
        ≡ send_packet env handler self op payload k (k + 8) s
  unfolding send_data
  send_data-accepted self op payload k s b l =
      let e : (k + 8) % 256 ≡ k + 8 = omega arith in rw (b, e) (ground arith)
