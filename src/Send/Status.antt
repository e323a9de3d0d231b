-- ===== src/Send/Status.antt =====
-- Sending the status "OK", for a request of it or as a heartbeat.
use steamlink_arduino.Prelude.{
  ℕ, ◌≡◌, ◌≢◌, refl, ◌∙◌, ◌⊎◌, inl, inr, Bool, true, false, Bool-cases, List, [], ◌∷◌, arith,
}
use steamlink_arduino.Wire.{is_data, is_transport}
use steamlink_arduino.Wire.Op
use steamlink_arduino.System.{nodeside, Env, System, Node, Ref, returns, node}
use steamlink_arduino.Send.{Handler, send_data, send_ss}
use steamlink_arduino.Send.Steps.{is_blocked}
use steamlink_arduino.Send.Phy.{Sent, Carries, IsTyped, send_data-Sent}
use steamlink_arduino.Send.Limits.{send_string-length, send_data-blocked}

abbrev pub ok_text : List ℕ
ok_text = 79 ∷ 75 ∷ 0 ∷ []

pub open_lem : (n : Node) → n.waiting_for_ack ≡ false → is_blocked Op.ss n ≡ false
open_lem n w = rw w

pub shut_lem : (n : Node) → n.waiting_for_ack ≡ true → is_blocked Op.ss n ≡ true
unfolding is_transport
shut_lem n w = rw w

module _ (env : Env) (handler : Handler) (self : Ref) where
  -- The string "OK" goes out with its terminator.
  pub status_lem :
      (s : System)
      → send_ss env handler self ok_text s ≡ send_data env handler self Op.ss ok_text 3 s
  unfolding send_ss
  status_lem s =
      send_string-length env handler self Op.ss (79 ∷ 75 ∷ []) [] s
        (λ e. omega arith, (λ e. omega arith, tt))

  -- A node that is not the node side of a bridge queues the status, unless it waits for an
  -- acknowledgement: then nothing happens.
  pub send_status :
      (s : System)
      → IsTyped (node self s)
      → (node self s).bridge_mode ≢ nodeside
      → (((node self s).waiting_for_ack ≡ false)
          × ((packet : List ℕ) × (b : Bool) × (s' : System) × (send_ss env handler self ok_text s
                ≡ returns b s')
              × Carries (node self s) Op.ss ok_text 3 packet
              × Sent Op.ss packet 11 (node self s) (node self s')))
        ⊎ (((node self s).waiting_for_ack ≡ true)
            × (send_ss env handler self ok_text s ≡ returns false s))
  unfolding is_data
  send_status s v m = elim (Bool-cases (node self s).waiting_for_ack) [
    | inl w ↦ inr (
      w,
      status_lem s
          ∙ send_data-blocked env handler self Op.ss ok_text 3 s (shut_lem (node self s) w),
    )
    | inr w ↦
        let (packet, b, s', run, carries, sent) =
          send_data-Sent env handler self Op.ss ok_text 3 s v refl m (open_lem (node self s) w)
            (omega arith) (omega arith) in
        inl (w, (packet, b, s', status_lem s ∙ run, carries, sent))
  ]
