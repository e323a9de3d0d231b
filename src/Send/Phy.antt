-- ===== src/Send/Phy.antt =====
-- `send_data` of a node whose data goes out on its own interface: unbridged, or the bridge's store
-- side.
use steamlink_arduino.Prelude.{
  ℕ, ◌+◌, ◌≤◌, ◌<◌, ◌^◌, ◌≡◌, ◌≢◌, refl, ap, ap₂, ◌∙◌, inl, inr, Bool, true, false, List, [], ◌++◌,
  ◌||◌, arith, length, take, drop, length-append, length-take, length-drop, take-append, take_all,
  if◌then◌else◌, Bool-cases,
}
use steamlink_arduino.Wire.{
  is_transport, needs_ack, is_data, byte_at, data_header_bytes, as_data_header,
}
use steamlink_arduino.Wire.RoundTrip.{read32-le32, read16-le16}
use steamlink_arduino.Wire.Slid
use steamlink_arduino.Ring.Refine.{IsValid, Joins, enqueue-Joins}
use steamlink_arduino.System.{
  BridgeMode, nodeside, Env, System, Node, Ref, store_driver, node_driver, returns, node, ◌>>=◌,
}
use steamlink_arduino.Send.{Handler, phy, way, header_of, next_count, send_data}
use steamlink_arduino.Send.Packet.{IsWhole-long, packet_of, length-packet_of}
use steamlink_arduino.Send.Steps.{
  queued, stamped, prepared, finish, is_blocked, generic_send-phy, send_packet_lem,
  send_data-accepted,
}

-- The state after a packet has gone to the queue.
abbrev pub in_queue : Env → Ref → ℕ → List ℕ → ℕ → System → System
in_queue env self op packet len s =
    queued self packet len Slid.store_addr (prepared env self op packet len s)

abbrev pub sent_state : Env → Ref → ℕ → List ℕ → ℕ → System → System
sent_state env self op packet len s =
    let t = stamped env self (in_queue env self op packet len s) in
    record t { freed = if is_transport op then t.freed + 1 else t.freed }

pub way_own : (mode : BridgeMode) → mode ≢ nodeside → way true mode ≡ phy
unfolding way
way_own BridgeMode.unbridged h = refl
way_own BridgeMode.storeside h = refl
way_own nodeside h = absurd (h refl)

pub packet_of-op :
    (env : Env) (s : System) (n : Node) (op : ℕ) (payload : List ℕ) (k : ℕ)
    → byte_at (packet_of env s n op payload k) 0 ≡ op
unfolding data_header_bytes header_of
packet_of-op env s n op payload k = refl

pub bridge_mode-prepared :
    (env : Env) (self : Ref) (op : ℕ) (packet : List ℕ) (len : ℕ) (s : System)
    → (node self (prepared env self op packet len s)).bridge_mode ≡ (node self s).bridge_mode
bridge_mode-prepared env store_driver op packet len s = ground arith
bridge_mode-prepared env node_driver op packet len s = ground arith

pub finish_lem :
    (op : ℕ) (b : Bool) (t : System)
    → finish op b t
      ≡ returns b (record t { freed = if is_transport op then t.freed + 1 else t.freed })
finish_lem op b t = ground arith

module _ (env : Env) (handler : Handler) (self : Ref) (op : ℕ) (payload : List ℕ) (k : ℕ)
    (s : System) where
  abbrev packet : List ℕ
  packet = packet_of env s (node self s) op payload k

  pub send_data-phy :
      is_data op ≡ true
      → (node self s).bridge_mode ≢ nodeside
      → is_blocked op (node self s) ≡ false
      → k ≤ length payload
      → k + 8 < 256
      → length (node self s).retry_packet ≡ 255
      → send_data env handler self op payload k s
        ≡ returns
            (env.no_return (in_queue env self op packet (k + 8) s))
            (sent_state env self op packet (k + 8) s)
  send_data-phy d m b p l r =
      send_data-accepted env handler self op payload k s b l
      ∙ send_packet_lem env handler self op payload k s p (omega arith)
      ∙ rw
          (
            generic_send-phy env handler self packet (k + 8) Slid.store_addr
                (prepared env self op packet (k + 8) s)
                (IsWhole-long packet
                  (omega (arith, length-packet_of env s (node self s) op payload k p)))
                goes,
            ◌>>=◌,
          )
          (finish_lem op _ _)
    where
      goes :
          way
            (is_data (byte_at packet 0))
            (node self (prepared env self op packet (k + 8) s)).bridge_mode
          ≡ phy
      goes =
          ap₂ way (ap is_data (packet_of-op env s (node self s) op payload k) ∙ d)
            (bridge_mode-prepared env self op packet (k + 8) s)
          ∙ way_own (node self s).bridge_mode m

-- What the packet says when its header is read back, and what follows the header.
pub record Carries (n : Node) (op : ℕ) (payload : List ℕ) (k : ℕ) (packet : List ℕ) : Type 0 where
  pub size : length packet ≡ k + 8
  pub header_op : (as_data_header packet).op ≡ op
  pub header_slid : (as_data_header packet).slid ≡ n.slid
  pub header_rssi : (as_data_header packet).rssi ≡ n.last_rssi
  pub header_number :
      (as_data_header packet).pkg_num
      ≡ (if is_transport op then (as_data_header packet).pkg_num else n.pkt_count_data)
  pub content : drop 8 packet ≡ take k payload

-- What `send_data` leaves in the node.
pub record Sent (op : ℕ) (packet : List ℕ) (len : ℕ) (n n' : Node) : Type 0 where
  pub queue : Joins n.send_q packet len Slid.store_addr n'.send_q
  pub count :
      n'.pkt_count_data
      ≡ (if is_transport op then n.pkt_count_data else next_count n.pkt_count_data)
  pub waits : n'.waiting_for_ack ≡ needs_ack op || n.waiting_for_ack
  pub keeps_copy :
      (if needs_ack op then take n'.retry_packet_length n'.retry_packet else packet) ≡ packet
  pub copy_addr : n'.retry_slid ≡ (if needs_ack op then Slid.store_addr else n.retry_slid)
  pub same_slid : n'.slid ≡ n.slid
  pub same_mode : n'.bridge_mode ≡ n.bridge_mode
  pub same_config : n'.config ≡ n.config
  pub same_handlers : (n'.on_receive ≡ n.on_receive) × (n'.bridge_handler ≡ n.bridge_handler)
  pub same_size : length n'.retry_packet ≡ length n.retry_packet

pub packet_of-Carries :
    (env : Env) (s : System) (n : Node) (op : ℕ) (payload : List ℕ) (k : ℕ)
    → n.slid < 2 ^ 32
    → n.pkt_count_data < 2 ^ 16
    → k ≤ length payload
    → Carries n op payload k (packet_of env s n op payload k)
unfolding header_of data_header_bytes as_data_header
packet_of-Carries env s n op payload k hs hc hk = record {
  size = omega (arith, length-packet_of env s n op payload k hk);
  header_op = refl;
  header_slid = read32-le32 n.slid [] hs;
  header_rssi = refl;
  header_number = elim (Bool-cases (is_transport op)) [
    | inl e ↦ rw e
    | inr e ↦ rw e (read16-le16 n.pkt_count_data [] hc)
  ];
  content = refl;
}

copy-Sent :
    (packet old : List ℕ) (len : ℕ)
    → len ≡ length packet
    → take len (take len packet ++ drop len old) ≡ packet
copy-Sent packet old len e =
    ap (λ p. take len (p ++ drop len old)) (take_all len packet (omega arith))
    ∙ take-append len packet (drop len old) e

length-copy :
    (packet old : List ℕ) (len : ℕ)
    → len ≤ length packet
    → len ≤ length old
    → length (take len packet ++ drop len old) ≡ length old
length-copy packet old len p q = omega (
  arith,
  length-append (take len packet) (drop len old),
  length-take len packet,
  length-drop len old,
)

pub sent_state-Sent :
    (env : Env) (self : Ref) (op : ℕ) (packet : List ℕ) (len : ℕ) (s : System)
    → len ≡ length packet
    → len ≤ length (node self s).retry_packet
    → IsValid (node self s).send_q
    → Sent op packet len (node self s) (node self (sent_state env self op packet len s))
sent_state-Sent env store_driver op packet len s e h v =
    let old = s.store_side.retry_packet in
    let joins = enqueue-Joins s.store_side.send_q packet len Slid.store_addr v in
    ground (arith, copy-Sent packet old len e, length-copy packet old len, joins)
sent_state-Sent env node_driver op packet len s e h v =
    let old = s.node_side.retry_packet in
    let joins = enqueue-Joins s.node_side.send_q packet len Slid.store_addr v in
    ground (arith, copy-Sent packet old len e, length-copy packet old len, joins)

-- The fields of a node have the ranges of their C types, the retry buffer its 255 bytes, and the send
-- queue is a valid ring.
pub record IsTyped (n : Node) : Type 0 where
  pub queue_in : IsValid n.send_q
  pub slid_in : n.slid < 2 ^ 32
  pub count_in : n.pkt_count_data < 2 ^ 16
  pub retry_size : length n.retry_packet ≡ 255

pub send_data-Sent :
    (env : Env) (handler : Handler) (self : Ref) (op : ℕ) (payload : List ℕ) (k : ℕ) (s : System)
    → IsTyped (node self s)
    → is_data op ≡ true
    → (node self s).bridge_mode ≢ nodeside
    → is_blocked op (node self s) ≡ false
    → k ≤ length payload
    → k + 8 < 256
    → (packet : List ℕ) × (b : Bool) × (s' : System) × (send_data env handler self op payload k s
        ≡ returns b s')
      × Carries (node self s) op payload k packet
      × Sent op packet (k + 8) (node self s) (node self s')
send_data-Sent env handler self op payload k s v d m b p l =
    let packet = packet_of env s (node self s) op payload k in
    (
      packet,
      env.no_return (in_queue env self op packet (k + 8) s),
      sent_state env self op packet (k + 8) s,
      send_data-phy env handler self op payload k s d m b p l v.retry_size,
      packet_of-Carries env s (node self s) op payload k v.slid_in v.count_in p,
      sent_state-Sent env self op packet (k + 8) s
          (length-packet_of env s (node self s) op payload k p) (omega (arith, v.retry_size))
          v.queue_in,
    )

next_count-lt : (c : ℕ) → next_count c < 2 ^ 16
unfolding next_count
next_count-lt c = ground arith

pub Sent-IsTyped :
    {op : ℕ} {packet : List ℕ} {len : ℕ} {n n' : Node}
    → Sent op packet len n n'
    → IsTyped n
    → IsTyped n'
Sent-IsTyped {op} {n = n} t v = record {
  queue_in = t.queue.still_valid;
  slid_in = rw t.same_slid v.slid_in;
  count_in = rw t.count (ground (arith, next_count-lt n.pkt_count_data, v.count_in));
  retry_size = t.same_size ∙ v.retry_size;
}
