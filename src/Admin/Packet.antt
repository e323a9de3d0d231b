-- ===== src/Admin/Packet.antt =====
-- The steps that the branches of `handle_admin_packet` share: taking the payload out of a control
-- packet, and sending an acknowledgement.
use steamlink_arduino.Prelude.{
  ℕ, ◌+◌, ◌%◌, ◌<◌, ◌≡◌, ◌≢◌, refl, ap, ◌∙◌, sym, subst, false, List, [], ◌∷◌, ◌++◌, arith, length,
  drop, length-append, take-append, append-nil,
}
use steamlink_arduino.Wire.{ControlHeader, control_header_bytes, is_data}
use steamlink_arduino.Wire.Op
use steamlink_arduino.System.{nodeside, Env, System, Node, Ref, returns, node, read_byte, ◌>>=◌}
use steamlink_arduino.Send.{Handler, send_as}
use steamlink_arduino.Send.Packet.{
  IsWhole-control, warnpkt_lem, packet_of, length-packet_of, memcpy_start,
}
use steamlink_arduino.Send.Steps.{is_blocked}
use steamlink_arduino.Send.Phy.{
  in_queue, sent_state, send_data-phy, Sent, Carries, IsTyped, sent_state-Sent, packet_of-Carries,
  Sent-IsTyped,
}
use steamlink_arduino.Admin.{payload_length_of, move_payload, handle_admin_packet, dispatch}

-- A control packet with its payload, of at most 255 bytes.
abbrev pub control_packet : ControlHeader → List ℕ → List ℕ
control_packet h payload = control_header_bytes h ++ payload

abbrev pub control_length : List ℕ → ℕ
control_length payload = length payload + 7

abbrev pub FitsControl : List ℕ → Type 0
FitsControl payload = length payload + 7 < 256

-- the buffer after its payload has moved to the start
abbrev pub moved : ControlHeader → List ℕ → List ℕ
moved h payload = payload ++ drop (length payload) (control_packet h payload)

pub payload_length_of_lem :
    (payload : List ℕ)
    → FitsControl payload
    → payload_length_of (control_length payload) ≡ length payload
unfolding payload_length_of
payload_length_of_lem payload f = omega arith

pub drop-header :
    (h : ControlHeader) (payload : List ℕ) → drop 7 (control_packet h payload) ≡ payload
unfolding control_header_bytes
drop-header h payload = refl

pub length-control_packet :
    (h : ControlHeader) (payload : List ℕ)
    → length (control_packet h payload) ≡ control_length payload
unfolding control_header_bytes
length-control_packet h payload = omega arith

-- The payload moves to the start of the buffer, whatever stands behind it there.
pub move_payload_stale :
    (h : ControlHeader) (payload stale : List ℕ) (s : System)
    → FitsControl payload
    → move_payload (control_packet h (payload ++ stale)) (control_length payload) s
      ≡ returns (payload ++ drop (length payload) (control_packet h (payload ++ stale))) s
unfolding move_payload
move_payload_stale h payload stale s f =
    rw (drop-header h (payload ++ stale), payload_length_of_lem payload f)
      (memcpy_start (control_packet h (payload ++ stale)) (payload ++ stale) (length payload) s
          (omega (arith, length-append payload stale))
          (omega (arith, length-control_packet h (payload ++ stale), length-append payload stale))
        ∙ ap (λ p. returns (p ++ drop (length payload) (control_packet h (payload ++ stale))) s)
            (take-append (length payload) payload stale refl))

pub move_payload_lem :
    (h : ControlHeader) (payload : List ℕ) (s : System)
    → FitsControl payload
    → move_payload (control_packet h payload) (control_length payload) s
      ≡ returns (moved h payload) s
move_payload_lem h payload s f =
    subst
      (λ p.
        move_payload (control_packet h p) (control_length payload) s
        ≡ returns (payload ++ drop (length payload) (control_packet h p)) s)
      (append-nil payload) (move_payload_stale h payload [] s f)

dispatch-header :
    (env : Env) (handler : Handler) (self : Ref) (h : ControlHeader) (rest : List ℕ) (len : ℕ)
    (s : System)
    → h.op % 2 ≡ 0
    → handle_admin_packet env handler self (control_packet h rest) len s
      ≡ dispatch env handler h.op self (control_packet h rest) len s
unfolding handle_admin_packet read_byte control_header_bytes is_data
dispatch-header env handler self h rest len s d =
    let packet = control_packet h rest in
    let whole = IsWhole-control packet (rw d refl) (omega (arith, length-control_packet h rest)) in
    rw (warnpkt_lem packet s whole, ◌>>=◌) (ground arith)

-- `handle_admin_packet` takes the branch of the op code in the header.
pub dispatch_lem :
    (env : Env) (handler : Handler) (self : Ref) (h : ControlHeader) (op : ℕ) (rest : List ℕ)
    (len : ℕ) (s : System)
    → h.op ≡ op
    → op % 2 ≡ 0
    → handle_admin_packet env handler self (control_packet h rest) len s
      ≡ dispatch env handler op self (control_packet h rest) len s
dispatch_lem env handler self h op rest len s e d =
    dispatch-header env handler self h rest len s (ap (λ o. o % 2) e ∙ d)
    ∙ ap (λ o. dispatch env handler o self (control_packet h rest) len s) e

-- The state after an acknowledgement with code `code` has gone to the queue.
abbrev pub ack_packet : Env → Ref → ℕ → System → List ℕ
ack_packet env self code s = packet_of env s (node self s) Op.acks (code ∷ []) 1

unfoldable pub acked : Env → Ref → ℕ → System → System
acked env self code s = sent_state env self Op.acks (ack_packet env self code s) 9 s

-- An acknowledgement with code `code` has joined the queue of the node `n`, which is now `n'`.
abbrev pub Answers : ℕ → Node → Node → Type 0
Answers code n n' =
    (packet : List ℕ) × Carries n Op.acks (code ∷ []) 1 packet × Sent Op.acks packet 9 n n'

acks-open : (n : Node) → is_blocked Op.acks n ≡ false
acks-open n = ground arith

module _ (env : Env) (handler : Handler) (self : Ref) (code : ℕ) (s : System) where
  pub send_as-phy :
      (node self s).bridge_mode ≢ nodeside
      → IsTyped (node self s)
      → send_as env handler self code s
        ≡ returns
            (env.no_return (in_queue env self Op.acks (ack_packet env self code s) 9 s))
            (acked env self code s)
  unfolding send_as is_data acked
  send_as-phy m v =
      send_data-phy env handler self Op.acks (code ∷ []) 1 s refl m (acks-open (node self s))
        (omega arith) (omega arith) v.retry_size

  pub acked-Sent :
      IsTyped (node self s)
      → Sent Op.acks
          (ack_packet env self code s)
          9
          (node self s)
          (node self (acked env self code s))
        × Carries (node self s) Op.acks (code ∷ []) 1 (ack_packet env self code s)
  unfolding acked
  acked-Sent v = (
    sent_state-Sent env self Op.acks (ack_packet env self code s) 9 s
        (length-packet_of env s (node self s) Op.acks (code ∷ []) 1 (omega arith))
        (omega (arith, v.retry_size)) v.queue_in,
    packet_of-Carries env s (node self s) Op.acks (code ∷ []) 1 v.slid_in v.count_in (omega arith),
  )

  -- After an acknowledgement the node is as sound as before, and bridged as before.
  pub acked-IsTyped : IsTyped (node self s) → IsTyped (node self (acked env self code s))
  acked-IsTyped v = Sent-IsTyped (acked-Sent v).0 v

  pub acked-bridge_mode :
      IsTyped (node self s)
      → (node self s).bridge_mode ≢ nodeside
      → (node self (acked env self code s)).bridge_mode ≢ nodeside
  acked-bridge_mode v m e = m (sym (acked-Sent v).0.same_mode ∙ e)

  pub acked-Answers :
      {n : Node} → node self s ≡ n → IsTyped n → Answers code n (node self (acked env self code s))
  acked-Answers e v =
      let w = acked-Sent (subst IsTyped (sym e) v) in
      subst (λ m. Answers code m (node self (acked env self code s))) e
        (ack_packet env self code s, w.1, w.0)
