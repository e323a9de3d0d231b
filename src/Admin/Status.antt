-- ===== src/Admin/Status.antt =====
-- The `GS`, `BC` and `BR` branches of `handle_admin_packet`.
use steamlink_arduino.Prelude.{ℕ, ◌+◌, ◌≡◌, ◌≢◌, refl, ◌∙◌, ◌⊎◌, inl, inr, true, false, List}
use steamlink_arduino.Wire.{ControlHeader}
use steamlink_arduino.Wire.Op
use steamlink_arduino.System.{nodeside, Env, System, Ref, returns, resets, node, ◌>>=◌}
use steamlink_arduino.Send.{Handler}
use steamlink_arduino.Send.Phy.{Sent, Carries, IsTyped}
use steamlink_arduino.Send.Status.{ok_text, send_status}
use steamlink_arduino.Admin.{handle_admin_packet, dispatch, handle_gs, handle_bc}
use steamlink_arduino.Admin.Packet.{control_packet, control_length, dispatch_lem}

module _ (env : Env) (handler : Handler) where
  -- Where a node that is not the node side of a bridge takes a `GS` packet, one `SS` packet that
  -- carries "OK" joins its send queue, at the end or nowhere where the queue is full. While the
  -- node waits for an acknowledgement, it does nothing at all. The node's fields are taken to lie
  -- in the ranges of their types, and its send queue to be a valid ring.
  pub gs_answers :
      (self : Ref) (h : ControlHeader) (payload : List ℕ) (s : System)
      → h.op ≡ Op.gs
      → IsTyped (node self s)
      → (node self s).bridge_mode ≢ nodeside
      → (((node self s).waiting_for_ack ≡ false)
          × ((packet : List ℕ) × (s' : System) × (handle_admin_packet env handler self
                  (control_packet h payload)
                  (control_length payload)
                  s
                ≡ returns tt s')
              × Carries (node self s) Op.ss ok_text 3 packet
              × Sent Op.ss packet 11 (node self s) (node self s')))
        ⊎ (((node self s).waiting_for_ack ≡ true)
            × (handle_admin_packet env handler self
                  (control_packet h payload)
                  (control_length payload)
                  s
                ≡ returns tt s))
  unfolding dispatch handle_gs
  gs_answers self h payload s o v m =
      let goes = dispatch_lem env handler self h Op.gs payload (control_length payload) s o refl in
      elim (send_status env handler self s v m) [
        | inl (w, (packet, b, s', run, carries, sent)) ↦
            inl (w, (packet, s', goes ∙ rw (◌>>=◌, run) refl, carries, sent))
        | inr (w, run) ↦ inr (w, goes ∙ rw (◌>>=◌, run) refl)
      ]

  -- A `BC` packet ends in the loop that the watchdog resets. A `BR` packet, which is to reset the
  -- radio, only gives its buffer back.
  pub restarts :
      (self : Ref) (h : ControlHeader) (payload : List ℕ) (s : System)
      → (h.op ≡ Op.bc
          → handle_admin_packet env handler self
              (control_packet h payload)
              (control_length payload)
              s
            ≡ resets)
        × (h.op ≡ Op.br
            → handle_admin_packet env handler self
                (control_packet h payload)
                (control_length payload)
                s
              ≡ returns tt (record s { freed = s.freed + 1 }))
  unfolding dispatch handle_bc
  restarts self h payload s = (
    λ o. dispatch_lem env handler self h Op.bc payload (control_length payload) s o refl,
    λ o. dispatch_lem env handler self h Op.br payload (control_length payload) s o refl,
  )
