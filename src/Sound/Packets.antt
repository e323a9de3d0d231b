-- ===== src/Sound/Packets.antt =====
-- The branches of `handle_admin_packet` end in a sound state, where the packets that they send on
-- do.
use steamlink_arduino.Prelude.{
  ℕ, ◌+◌, ◌≤◌, ◌<◌, ◌≡◌, refl, ap, sym, ◌∙◌, ◌++◌, inr, false, List, arith, length, take, drop,
  length-drop, length-take, ◌==◌, not,
}
use steamlink_arduino.Wire.{
  byte_at, is_data, as_control_header, as_node_cfg, node_config_version, sizeof_node_cfg,
}
use steamlink_arduino.Wire.Op
use steamlink_arduino.Wire.Ack
use steamlink_arduino.System.{
  Env, Ref, resets, ◌>>=◌, pure, free, deliver, malloc, memcpy, this, modify, read_byte,
}
use steamlink_arduino.Send.Packet.{IsWhole}
use steamlink_arduino.Send.{Handler, warnpkt, generic_send, send_as, send_ss, send_td, send_data}
use steamlink_arduino.Admin.{
  payload_length_of, move_payload, status_ok, handle_dn, handle_bn, handle_gs, handle_td,
  set_config, accept_config, handle_sc, handle_bc, handle_an, handle_data, dispatch,
  handle_admin_packet,
}
use steamlink_arduino.Sound.{
  Setting, Excused, excuse, Ensures, Any, bind, step, pure_ends, ignored, reset_ends, malloc_ends,
  free_ends, this_ends, deliver_ends, modify_ends, memcpy_ends, read_byte_ends, test_ends,
  cases_ends, weaken, length-copy,
}
use steamlink_arduino.Sound.Sends.{
  warnpkt_ends, SendsData, send_data_ends, send_as_ends, send_ss_ends, send_td_ends,
}

-- A buffer whose payload of `k` bytes has been moved to its start.
pub record IsMoved (packet : List ℕ) (k : ℕ) (b : List ℕ) : Type 0 where
  pub same_length : length b ≡ length packet
  pub fits : k ≤ length (drop 7 packet)
  pub unmoved : k ≡ 0 → b ≡ packet

-- A packet within its buffer, with a header, and short enough to be put in an envelope.
abbrev pub IsRegular : List ℕ → ℕ → Type 0
IsRegular packet len = (len ≤ length packet) × (7 ≤ len) × (len + 8 < 256)

payload_length-lt : (len : ℕ) → payload_length_of len < 256
unfolding payload_length_of
payload_length-lt len = omega arith

as_node_cfg_arrays :
    (b : List ℕ)
    → length b ≡ 60
    → (length (as_node_cfg b).name ≡ 10) × (length (as_node_cfg b).description ≡ 32)
unfolding as_node_cfg
as_node_cfg_arrays b l = (
  omega (arith, length-take 10 (drop 5 b), length-drop 5 b),
  omega (arith, length-take 32 (drop 15 b), length-drop 15 b),
)

module _ (t : Setting) (env : Env) (handler : Handler) (self : Ref)
    (out : SendsData t env handler self) where
  ack_ends : (code : ℕ) → Ensures t Any (send_as env handler self code >>= (λ sent. pure tt))
  ack_ends code = ignored (send_as env handler self code) (send_as_ends t env handler self out code)

  -- No wait is begun.
  calm_ends : Ensures t Any (modify self (λ n. record n { waiting_for_ack = false }))
  calm_ends =
      modify_ends self (λ n. record n { waiting_for_ack = false })
        (λ n v. record {
          keeps_mode = v.keeps_mode;
          has_handler = v.has_handler;
          queue = v.queue;
          arrays = v.arrays;
          count_in = v.count_in;
          retry = record {
            retry_size = v.retry.retry_size;
            retry_in = v.retry.retry_in;
            cached = λ e. absurd (ground (arith, e));
          };
        })

  module _ (packet : List ℕ) (len : ℕ) (x : Excused t (IsRegular packet len)) where
    move_payload_ends : Ensures t (IsMoved packet (payload_length_of len)) (move_payload packet len)
    unfolding move_payload payload_length_of
    move_payload_ends =
        let k = payload_length_of len in
        let rest = drop 7 packet in
        weaken
          (memcpy_ends packet 0 rest k (
            excuse t x
              (λ h. (omega (arith, length-drop 7 packet, h.0, h.1), omega (arith, h.0, h.1)))))
          (λ b c. record {
            same_length = length-copy c;
            fits = c.source;
            unmoved =
                λ e. c.content ∙ ap (λ j. take 0 packet ++ (take j rest ++ drop (0 + j) packet)) e;
          })

    dn_ends : Ensures t Any (handle_dn env handler self packet len)
    unfolding handle_dn
    dn_ends = bind (move_payload packet len) _ move_payload_ends (λ moved c.
        bind (send_as env handler self Ack.success) _
          (send_as_ends t env handler self out Ack.success)
          (λ sent u. bind (this self) _ (this_ends self) (λ n v.
            test_ends n.on_receive (deliver self (take (payload_length_of len) moved)) (pure tt)
              (deliver_ends self (take (payload_length_of len) moved)) (pure_ends tt tt))))

    bn_ends :
        ((moved : List ℕ)
          → IsMoved packet (payload_length_of len) moved
          → Ensures t Any (
              generic_send env handler self moved
                (payload_length_of len)
                (as_control_header moved).slid))
        → Ensures t Any (handle_bn env handler self packet len)
    unfolding handle_bn
    bn_ends h = bind (move_payload packet len) _ move_payload_ends (λ moved c.
        bind (read_byte moved 4) _
          (read_byte_ends moved 4 (excuse t x (λ r. omega (arith, r.0, r.1, c.same_length))))
          (λ last u.
            ignored
              (generic_send env handler self moved (payload_length_of len)
                (as_control_header moved).slid)
              (h moved c)))

    td_ends : Ensures t Any (handle_td env handler self packet len)
    unfolding handle_td
    td_ends =
        bind (send_as env handler self Ack.success) _
          (send_as_ends t env handler self out Ack.success)
          (λ sent u. bind (move_payload packet len) _ move_payload_ends (λ moved c.
            ignored (send_td env self moved (payload_length_of len)) (
              send_td_ends t env self moved (payload_length_of len) (payload_length-lt len)
                (inr (omega (arith, c.fits, c.same_length, length-drop 7 packet))))))

    set_config_ends :
        (moved : List ℕ)
        → IsMoved packet (payload_length_of len) moved
        → Ensures t Any (set_config env handler self moved (payload_length_of len))
    unfolding set_config
    set_config_ends moved c =
        let k = payload_length_of len in
        cases_ends (not (k == sizeof_node_cfg))
          (send_as env handler self Ack.size_err >>= (λ sent. pure tt)) _
          (λ e. ack_ends Ack.size_err)
          (λ e.
            let full : k ≡ 60 = ground (arith, e) in
            bind (malloc env 60) _ (malloc_ends env 60) (λ fresh size.
              bind (memcpy fresh 0 moved k) _
                (memcpy_ends fresh 0 moved k (
                  inr (
                    omega (arith, c.fits, c.same_length, length-drop 7 packet),
                    omega (arith, full, size),
                  )))
                (λ config c'.
                  step
                    (modify self (λ n. record n {
                      config = as_node_cfg config;
                      slid = (as_node_cfg config).slid;
                    }))
                    _
                    (modify_ends self
                      (λ n. record n {
                        config = as_node_cfg config;
                        slid = (as_node_cfg config).slid;
                      })
                      (λ n v. record {
                        keeps_mode = v.keeps_mode;
                        has_handler = v.has_handler;
                        queue = v.queue;
                        arrays = as_node_cfg_arrays config (length-copy c' ∙ size);
                        count_in = v.count_in;
                        retry = v.retry;
                      }))
                    (bind (send_as env handler self Ack.success) _
                      (send_as_ends t env handler self out Ack.success)
                      (λ sent u. ack_ends Ack.success)))))

    sc_ends : Ensures t Any (handle_sc env handler self packet len)
    unfolding handle_sc accept_config
    sc_ends = bind (this self) _ (this_ends self) (λ n m.
        step _ free
          (test_ends n.waiting_for_ack (accept_config env handler self packet len)
            (send_as env handler self Ack.unexpected >>= (λ sent. pure tt))
            (step (modify self (λ n. record n { waiting_for_ack = false })) _ calm_ends (
              bind (move_payload packet len) _ move_payload_ends (λ moved c.
                bind (read_byte moved 0) _
                  (read_byte_ends moved 0
                    (excuse t x (λ r. omega (arith, r.0, r.1, c.same_length))))
                  (λ vers v.
                    test_ends (vers == node_config_version)
                      (set_config env handler self moved (payload_length_of len)) _
                      (set_config_ends moved c) (ack_ends Ack.version_err)))))
            (ack_ends Ack.unexpected))
          free_ends)

    -- `handle_admin_packet` ends if its branch for `BN` packets does.
    pub handle_admin_packet_ends :
        ((moved : List ℕ)
          → IsMoved packet (payload_length_of len) moved
          → byte_at packet 0 ≡ Op.bn
          → Ensures t Any (
              generic_send env handler self moved
                (payload_length_of len)
                (as_control_header moved).slid))
        → Excused t (IsWhole packet)
        → Ensures t Any (handle_admin_packet env handler self packet len)
    unfolding handle_admin_packet dispatch handle_gs handle_bc handle_an handle_data is_data
    handle_admin_packet_ends h y = step (warnpkt packet) _ (warnpkt_ends t env packet y) (
        bind (read_byte packet 0) _
          (read_byte_ends packet 0 (excuse t x (λ r. omega (arith, r.0, r.1))))
          (λ op o. test_ends (op == Op.dn) (handle_dn env handler self packet len) _ dn_ends (
            cases_ends (op == Op.bn) (handle_bn env handler self packet len) _
              (λ e. bn_ends (λ moved c. h moved c (sym o ∙ ground (arith, e))))
              (λ e.
                test_ends (op == Op.gs) (handle_gs env handler self) _
                  (ignored (send_ss env handler self status_ok)
                    (send_ss_ends t env handler self out))
                  (test_ends (op == Op.td) (handle_td env handler self packet len) _ td_ends (
                    test_ends (op == Op.sc) (handle_sc env handler self packet len) _ sc_ends (
                      test_ends (op == Op.bc) (handle_bc env handler) _
                        (step free (λ s. resets) free_ends reset_ends)
                        (test_ends (op == Op.br) free _ free_ends (
                          test_ends (op == Op.an) (handle_an env handler self) _
                            (step free (modify self (λ n. record n { waiting_for_ack = false }))
                              free_ends calm_ends)
                            (test_ends (is_data op) (handle_data env handler self packet len)
                              (pure tt)
                              (ignored (send_data env handler self Op.bs packet len) (
                                send_data_ends t env handler self out Op.bs packet len refl
                                  (excuse t x (λ r. (r.0, r.2)))))
                              (pure_ends tt tt)))))))))))
