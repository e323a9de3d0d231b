-- ===== src/Sound/Sends.antt =====
-- The functions of Send end in a sound state, where the calls of the bridge that they make do.
use steamlink_arduino.Prelude.{
  ℕ, suc, ◌+◌, ◌≤◌, ◌<◌, ◌^◌, ◌≡◌, ◌≢◌, refl, sym, ap, ap₂, ◌∙◌, inr, Bool, true, false, List, [],
  ◌∷◌, ◌++◌, take, drop, ◌==◌, ltb, not, ◌&&◌, set, length, arith, if◌then◌else◌,
}
use steamlink_arduino.Wire.{
  byte_at, is_data, data_header_bytes, sizeof_data_header, is_transport, needs_ack, u8,
}
use steamlink_arduino.Wire.Op
use steamlink_arduino.Wire.Slid
use steamlink_arduino.Ring.{Relement, RingBuff, enqueue}
use steamlink_arduino.Ring.Refine.{enqueue-IsValid}
use steamlink_arduino.System.{
  BridgeMode, unbridged, Env, Node, Ref, returns, faults, null_handler, ◌>>◌, pure, free, malloc,
  millis, memcpy, this, modify, read_byte, when,
}
use steamlink_arduino.Send.{
  Handler, Way, phy, bridge, way, header_of, next_count, send_enqueue, build_packet, cache_packet,
  to_bridge, generic_send, send_packet, send_data, send_string, strlen, send_as, send_ss, send_td,
  sl_max_packet_length, warnpkt,
}
use steamlink_arduino.Send.Packet.{IsWhole, IsWhole-lt, IsWhole-long}
use steamlink_arduino.Admin.{status_ok}
use steamlink_arduino.Sound.{
  IsPacket, AllPackets, Setting, Excused, excuse, Ends, Ensures, Any, bind, step, pure_ends,
  malloc_ends, millis_ends, free_ends, this_ends, modify_ends, memcpy_ends, read_byte_ends,
  test_ends, when_ends, cases_ends, weaken, length-copy,
}

AllPackets-set :
    (es : List Relement) (i : ℕ) (e : Relement)
    → AllPackets es
    → IsPacket e.pkt e.len
    → AllPackets (set es i e)
AllPackets-set [] i e h p = tt
AllPackets-set (x ∷ es) ℕ.zero e h p = (p, h.1)
AllPackets-set (x ∷ es) (suc i) e h p = (h.0, AllPackets-set es i e h.1 p)

enqueue-AllPackets :
    (q : RingBuff) (packet : List ℕ) (len slid : ℕ)
    → AllPackets q.ring
    → IsPacket packet len
    → AllPackets (enqueue q packet len slid).0.ring
unfolding enqueue
enqueue-AllPackets q packet len slid h p =
    grind
      (arith, AllPackets-set q.ring q.tail (record { addr = slid; len = len; pkt = packet }) h p, h)

next_count_bounds : (c : ℕ) → (0 < next_count c) × (next_count c < 2 ^ 16)
unfolding next_count
next_count_bounds c = ground arith

-- Only a bridge's side calls the other one.
pub way-unbridged : (b : Bool) (mode : BridgeMode) → way b mode ≡ bridge → mode ≢ unbridged
unfolding way
way-unbridged true unbridged h e = ground arith
way-unbridged false unbridged h e = ground arith
way-unbridged b BridgeMode.storeside h e = ground arith
way-unbridged b BridgeMode.nodeside h e = ground arith

module _ (t : Setting) (env : Env) where
  pub send_enqueue_ends :
      (self : Ref) (packet : List ℕ) (len slid : ℕ)
      → IsPacket packet len
      → Ensures t Any (send_enqueue env self packet len slid)
  unfolding send_enqueue Ends
  send_enqueue_ends self packet len slid p =
      step (modify self (λ n. record n { send_q = (enqueue n.send_q packet len slid).0 }))
        (λ s. returns (env.no_return s) s)
        (modify_ends self (λ n. record n { send_q = (enqueue n.send_q packet len slid).0 })
          (λ n v. record {
            keeps_mode = v.keeps_mode;
            has_handler = v.has_handler;
            queue = record {
              ring_IsValid = enqueue-IsValid n.send_q packet len slid v.queue.ring_IsValid;
              packets = enqueue-AllPackets n.send_q packet len slid v.queue.packets p;
            };
            arrays = v.arrays;
            count_in = v.count_in;
            retry = v.retry;
          }))
        (record { run = λ s v. (tt, v) })

  -- What `build_packet` leaves: a packet of the length asked for, with the op code in front.
  record IsBuilt (op len : ℕ) (b : List ℕ) : Type 0 where
    first : byte_at b 0 ≡ op
    size : length b ≡ len
    long : 8 ≤ len

  build_packet_ends :
      (n : Node) (op len : ℕ) (payload : List ℕ) (k : ℕ)
      → Excused t ((k ≤ length payload) × (k + 8 ≤ len))
      → Ensures t (IsBuilt op len) (build_packet env n op len payload k)
  unfolding build_packet data_header_bytes header_of
  build_packet_ends n op len payload k x =
      bind (malloc env len) _ (malloc_ends env len) (λ fresh size.
        let head = data_header_bytes (header_of n op fresh) in
        bind (memcpy fresh 0 head 8) _
          (memcpy_ends fresh 0 head 8 (excuse t x (λ h. (omega arith, omega (arith, size, h.1)))))
          (λ packet c.
            let first : byte_at packet 0 ≡ op = ap (λ b. byte_at b 0) c.content in
            let built : length packet ≡ len = length-copy c ∙ size in
            let long : 8 ≤ len = omega (arith, size, c.room) in
            test_ends (ltb 0 k) (memcpy packet 8 payload k) (pure packet)
              (weaken
                (memcpy_ends packet 8 payload k
                  (excuse t x (λ h. (h.0, omega (arith, built, h.1)))))
                (λ b c'. record {
                  first =
                      ap (λ b. byte_at b 0) c'.content
                      ∙ ap (λ p. byte_at (take 8 p ++ (take k payload ++ drop (8 + k) packet)) 0)
                          c.content;
                  size = length-copy c' ∙ built;
                  long = long;
                }))
              (pure_ends packet (record { first = first; size = built; long = long }))))

  cache_packet_ends :
      (self : Ref) (packet : List ℕ) (len : ℕ)
      → 8 ≤ len
      → IsPacket packet len
      → Ensures t Any (cache_packet env self packet len)
  unfolding cache_packet
  cache_packet_ends self packet len l p = bind (this self) _ (this_ends self) (λ n v.
      bind (memcpy n.retry_packet 0 packet len) _
        (memcpy_ends n.retry_packet 0 packet len
          (inr (p.within, omega (arith, v.retry.retry_size, p.within, p.size))))
        (λ copy c. bind (millis env) _ (millis_ends env) (λ now u.
          modify_ends self
            (λ n. record n {
              waiting_for_ack = true;
              retry_packet = copy;
              retry_packet_length = len;
              retry_slid = Slid.store_addr;
              last_retry_time = now;
            })
            (λ n w. record {
              keeps_mode = w.keeps_mode;
              has_handler = w.has_handler;
              queue = w.queue;
              arrays = w.arrays;
              count_in = w.count_in;
              retry = record {
                retry_size = length-copy c ∙ v.retry.retry_size;
                retry_in = omega (arith, p.within, p.size);
                cached = λ e. l;
              };
            }))))

  pub warnpkt_ends : (packet : List ℕ) → Excused t (IsWhole packet) → Ensures t Any (warnpkt packet)
  unfolding warnpkt
  warnpkt_ends packet x =
      bind (read_byte packet 0) _ (read_byte_ends packet 0 (excuse t x (IsWhole-lt packet)))
        (λ op o.
          bind (read_byte packet (if is_data op then 7 else 6)) _
            (read_byte_ends packet (if is_data op then 7 else 6)
              (excuse t x (λ h. last_in packet op o h)))
            (λ last u. pure_ends tt tt))
    where
      last_in :
          (packet : List ℕ) (op : ℕ)
          → op ≡ byte_at packet 0
          → IsWhole packet
          → (if is_data op then 7 else 6) < length packet
      last_in packet op o h = ground (arith, o)

  module _ (handler : Handler) where
    to_bridge_ends :
        (self : Ref) (packet : List ℕ) (len slid : ℕ)
        → t.mode_of self ≢ unbridged
        → Ensures t Any (handler packet len slid)
        → Ensures t Any (to_bridge env handler self packet len slid)
    unfolding to_bridge
    to_bridge_ends self packet len slid m h = bind (this self) _ (this_ends self) (λ n v.
        cases_ends n.bridge_handler (handler packet len slid >> pure true)
          (λ s. faults null_handler)
          (λ e. step (handler packet len slid) (pure true) h (pure_ends true tt))
          (λ e. absurd (ground (arith, e, v.has_handler m))))

    goes_ends :
        (w : Way) (self : Ref) (packet : List ℕ) (len slid : ℕ)
        → IsPacket packet len
        → (w ≡ bridge → t.mode_of self ≢ unbridged)
        → (w ≡ bridge → Ensures t Any (handler packet len slid))
        → Ensures t Any (elim w [
          | phy ↦ send_enqueue env self packet len slid
          | bridge ↦ to_bridge env handler self packet len slid
        ])
    goes_ends phy self packet len slid p m h = send_enqueue_ends self packet len slid p
    goes_ends bridge self packet len slid p m h =
        to_bridge_ends self packet len slid (m refl) (h refl)

    -- A send ends if the call of the bridge ends, where the packet takes that way.
    pub generic_send_ends :
        (self : Ref) (packet : List ℕ) (len slid : ℕ)
        → IsPacket packet len
        → Excused t (IsWhole packet)
        → (way (is_data (byte_at packet 0)) (t.mode_of self) ≡ bridge
            → Ensures t Any (handler packet len slid))
        → Ensures t Any (generic_send env handler self packet len slid)
    unfolding generic_send
    generic_send_ends self packet len slid p x h = step (warnpkt packet) _ (warnpkt_ends packet x) (
        bind (read_byte packet 0) _ (read_byte_ends packet 0 (excuse t x (IsWhole-lt packet)))
          (λ op o. bind (this self) _ (this_ends self) (λ n v.
            let same = ap₂ (λ o m. way (is_data o) m) o v.keeps_mode in
            bind
              (elim (way (is_data op) n.bridge_mode) [
                | phy ↦ send_enqueue env self packet len slid
                | bridge ↦ to_bridge env handler self packet len slid
              ])
              _
              (goes_ends (way (is_data op) n.bridge_mode) self packet len slid p
                (λ e. way-unbridged (is_data (byte_at packet 0)) (t.mode_of self) (sym same ∙ e))
                (λ e. h (sym same ∙ e)))
              (λ rc u. bind (millis env) _ (millis_ends env) (λ now u.
                step (modify self (λ n. record n { last_send_time = now })) (pure rc)
                  (modify_ends self (λ n. record n { last_send_time = now }) (λ n v. v))
                  (pure_ends rc tt))))))

    -- Every data packet that the object sends ends.
    pub record SendsData (self : Ref) : Type 0 where
      pub sends :
          (packet : List ℕ) (len slid : ℕ)
          → IsPacket packet len
          → Excused t (IsWhole packet)
          → is_data (byte_at packet 0) ≡ true
          → Ensures t Any (generic_send env handler self packet len slid)

    module _ (self : Ref) (out : SendsData self) where
      send_packet_ends :
          (op : ℕ) (payload : List ℕ) (k len : ℕ)
          → is_data op ≡ true
          → len < 256
          → Excused t ((k ≤ length payload) × (k + 8 ≤ len))
          → Ensures t Any (send_packet env handler self op payload k len)
      unfolding send_packet
      send_packet_ends op payload k len d l x = bind (this self) _ (this_ends self) (λ n v.
          bind (build_packet env n op len payload k) _ (build_packet_ends n op len payload k x)
            (λ packet b.
              let p : IsPacket packet len = record {
                within = omega (arith, b.size);
                size = omega (arith, b.size);
              } in
              step
                (when (not (is_transport op))
                  (modify self (λ n. record n { pkt_count_data = next_count n.pkt_count_data })))
                _
                (when_ends (not (is_transport op)) _ (λ e.
                  modify_ends self (λ n. record n { pkt_count_data = next_count n.pkt_count_data })
                    (λ n v. record {
                      keeps_mode = v.keeps_mode;
                      has_handler = v.has_handler;
                      queue = v.queue;
                      arrays = v.arrays;
                      count_in = next_count_bounds n.pkt_count_data;
                      retry = v.retry;
                    })))
                (step (when (needs_ack op) (cache_packet env self packet len)) _
                  (when_ends (needs_ack op) (cache_packet env self packet len)
                    (λ e. cache_packet_ends self packet len (omega (arith, b.long)) p))
                  (bind (generic_send env handler self packet len Slid.store_addr) _
                    (out.sends packet len Slid.store_addr p
                      (inr (IsWhole-long packet (omega (arith, b.size, b.long))))
                      (ap is_data b.first ∙ d))
                    (λ sent u.
                      step (when (is_transport op) free) (pure sent)
                        (when_ends (is_transport op) free (λ e. free_ends)) (pure_ends sent tt))))))

      -- A payload of at most 247 bytes that is there needs no excuse.
      pub send_data_ends :
          (op : ℕ) (payload : List ℕ) (k : ℕ)
          → is_data op ≡ true
          → Excused t ((k ≤ length payload) × (k + 8 < 256))
          → Ensures t Any (send_data env handler self op payload k)
      unfolding send_data
      send_data_ends op payload k d x = bind (this self) _ (this_ends self) (λ n v.
          test_ends (n.waiting_for_ack && (not (is_transport op) && not (op == Op.acks)))
            (pure false) _ (pure_ends false tt)
            (test_ends (ltb sl_max_packet_length (u8 (k + sizeof_data_header))) (pure false) _
              (pure_ends false tt)
              (send_packet_ends op payload k (u8 (k + sizeof_data_header)) d (omega arith)
                (excuse t x (λ h. (h.0, omega (arith, h.1)))))))

      pub send_as_ends : (code : ℕ) → Ensures t Any (send_as env handler self code)
      unfolding send_as is_data
      send_as_ends code = send_data_ends Op.acks (code ∷ []) 1 refl (inr (omega arith, omega arith))

      pub send_ss_ends : Ensures t Any (send_ss env handler self status_ok)
      unfolding send_ss send_string strlen is_data
      send_ss_ends = send_data_ends Op.ss status_ok 3 refl (inr (omega arith, omega arith))

  pub send_td_ends :
      (self : Ref) (td : List ℕ) (len : ℕ)
      → len < 256
      → Excused t (len ≤ length td)
      → Ensures t Any (send_td env self td len)
  unfolding send_td
  send_td_ends self td len l x = bind (malloc env len) _ (malloc_ends env len) (λ fresh size.
      bind (memcpy fresh 0 td len) _
        (memcpy_ends fresh 0 td len (excuse t x (λ h. (h, omega (arith, size)))))
        (λ packet c. send_enqueue_ends self packet len Slid.test_addr (record {
          within = omega (arith, length-copy c, size);
          size = omega (arith, length-copy c, size);
        })))
