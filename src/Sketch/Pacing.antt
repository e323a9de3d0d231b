-- ===== src/Sketch/Pacing.antt =====
-- How often the test client sends, and how a message changes that.
use steamlink_arduino.Prelude.{
  ℕ, ◌+◌, ◌≤◌, ◌<◌, ◌^◌, ◌≡◌, refl, sym, ap, subst, ◌∙◌, inl, inr, Bool, true, false, Bool-cases,
  List, [], ◌∷◌, ◌++◌, Option, none, some, arith, ltb, ◌==◌, ◌&&◌, not, if◌then◌else◌, length, drop,
  drop_all,
}
use steamlink_arduino.Prelude.Options.{◌>>=◌}
use steamlink_arduino.Prelude.Text.{digit, decimal, read_decimal}
use steamlink_arduino.Prelude.Decimal.{read-digits, digits-append, digits-first}
use steamlink_arduino.Wire.{u32}
use steamlink_arduino.System
use steamlink_arduino.System.{Env, System, Delivery, returns}
use steamlink_arduino.Interface.{Methods}
use steamlink_arduino.Sketch.TestClient.{
  Client, atoi, at_least_gap, sl_on_receive, receive_all, message, get_bat_info, send_message, loop,
  min_tx_gap, has_nul, is_space,
}

abbrev pub IsPaced : Client → Type 0
IsPaced c = min_tx_gap ≤ c.wait_interval

-- a client that is paced, if there is one
abbrev AllPaced : Option Client → Type 0
AllPaced none = Unit
AllPaced (some c) = IsPaced c

at_least_gap-enough : (negative : Bool) (v : ℕ) → 125 ≤ at_least_gap (negative, v)
at_least_gap-enough negative v = ground arith

sl_on_receive-IsPaced : (buf : List ℕ) (c : Client) → IsPaced c → AllPaced (sl_on_receive buf c)
unfolding sl_on_receive
sl_on_receive-IsPaced buf c p = elim (Bool-cases (has_nul buf)) [
  | inr e ↦ rw e tt
  | inl e ↦ elim (Bool-cases (ltb 2147483647 (atoi buf).1)) [
    | inl f ↦ rw (e, f) tt
    | inr f ↦ elim (Bool-cases ((atoi buf).1 == 0)) [
      | inl g ↦ rw (e, f, g) p
      | inr g ↦ elim (Bool-cases ((atoi buf).1 == 1 && not (atoi buf).0)) [
        | inl h ↦ rw (e, f, g, h) p
        | inr h ↦ rw (e, f, g, h) (at_least_gap-enough (atoi buf).0 (atoi buf).1)
      ]
    ]
  ]
]

next-AllPaced :
    (ds : List Delivery) (o : Option Client)
    → AllPaced o
    → ((c : Client) → IsPaced c → AllPaced (receive_all ds c))
    → AllPaced (o >>= receive_all ds)
next-AllPaced ds none p h = tt
next-AllPaced ds (some c) p h = h c p

all_paced : (ds : List Delivery) (c : Client) → IsPaced c → AllPaced (receive_all ds c)
unfolding receive_all
all_paced [] c p = p
all_paced (d ∷ ds) c p =
    next-AllPaced ds (sl_on_receive d.buffer c) (sl_on_receive-IsPaced d.buffer c p) (all_paced ds)

-- Whatever messages come, the interval between two sendings stays at least 125 ms.
pub receive_all-IsPaced :
    (ds : List Delivery) (c c' : Client) → IsPaced c → receive_all ds c ≡ some c' → IsPaced c'
receive_all-IsPaced ds c c' p e = subst AllPaced e (all_paced ds c p)

has_nul-append : (xs rest : List ℕ) → has_nul (xs ++ (0 ∷ rest)) ≡ true
has_nul-append [] rest = refl
has_nul-append (x ∷ xs) rest = rw (has_nul-append xs rest) (ground arith)

atoi-digit :
    (d : ℕ) (more : List ℕ)
    → d < 10
    → atoi (digit d ∷ more) ≡ (false, read_decimal 0 (digit d ∷ more))
unfolding atoi
atoi-digit d more l =
    let e : digit d ≡ 48 + d = ground arith in
    subst (λ c. atoi (c ∷ more) ≡ (false, read_decimal 0 (c ∷ more))) (sym e)
      (let plain : is_space (48 + d) ≡ false = ground arith in
        let minus : (48 + d == 45) ≡ false = ground arith in
        let plus : (48 + d == 43) ≡ false = ground arith in rw (plain, minus, plus) refl)

atoi-decimal : (n : ℕ) (rest : List ℕ) → n < 2 ^ 32 → atoi (decimal n ++ (0 ∷ rest)) ≡ (false, n)
unfolding decimal
atoi-decimal n rest l =
    let (d, more, k, e) = digits-first 9 n (0 ∷ rest) in
    let whole = sym (digits-append 10 n [] (0 ∷ rest)) ∙ e in
    ap atoi whole
    ∙ atoi-digit d more k
    ∙ ap (λ v. (false, read_decimal 0 v)) (sym e)
    ∙ ap (λ v. (false, v)) (read-digits 10 n (0 ∷ rest) (omega (arith, l)))

-- A message that is a number from 2 on, with a NUL behind it, sets the interval to that many
-- milliseconds, and to 125 where the number is smaller, and changes nothing else.
pub interval_message :
    (n : ℕ) (rest : List ℕ) (c : Client)
    → 2 ≤ n
    → n < 2 ^ 31
    → sl_on_receive (decimal n ++ (0 ∷ rest)) c
      ≡ some (record c { wait_interval = if ltb n 125 then 125 else n })
unfolding sl_on_receive
interval_message n rest c l m =
    let run = atoi-decimal n rest (omega (arith, m)) in
    rw (has_nul-append (decimal n) rest, run) (ground (arith, l, m))

-- one reading of the clock
abbrev pub read_clock : System → System
read_clock s = record s { clock_reads = s.clock_reads + 1 }

-- the reading at which a message has been sent: two are taken where the sending succeeds
abbrev pub last_reading : Bool → System → ℕ
last_reading rc s = if rc then s.clock_reads + 1 else s.clock_reads

-- the client behind a message sent at a time
abbrev pub sent_at : ℕ → Client → Client
sent_at now c = record c {
  packet_num = c.packet_num + 1;
  b_last = c.b_current;
  next_send_time = u32 (now + c.wait_interval);
}

module _ {D : Type 0} (env : Env) (sl : Methods D) where
  -- A round sends nothing where no message arrives, the button is as it was, and the clock has not
  -- passed the time set for the next message.
  loop_waits :
      (button reading : ℕ) (d d' : D) (c : Client) (s s' : System)
      → sl.update d s ≡ returns d' s'
      → s'.delivered ≡ s.delivered
      → button ≡ c.b_last
      → env.clock s'.clock_reads ≤ c.next_send_time
      → loop env sl button reading d c s
        ≡ returns (d', record c { b_current = button }) (read_clock s')
  unfolding loop receive_all
  loop_waits button reading d d' c s s' u q b t =
      let none_new : drop (length s.delivered) s'.delivered ≡ [] =
        ap (drop (length s.delivered)) q
        ∙ drop_all (length s.delivered) s.delivered (omega arith) in
      rw (System.◌>>=◌, u, none_new) (ground (arith, b, t))

  send_message_lem :
      (reading : ℕ) (c : Client) (rc : Bool) (s s' : System)
      → sl.send
          (message (record c { packet_num = c.packet_num + 1 }) (get_bat_info reading))
          (read_clock s)
        ≡ returns rc s'
      → (s2 : System) × (send_message env sl reading c s
          ≡ returns (sent_at (env.clock (last_reading rc s')) c) s2)
  unfolding send_message
  send_message_lem reading c true s s' u = (read_clock (read_clock s'), rw (System.◌>>=◌, u) refl)
  send_message_lem reading c false s s' u = (read_clock s', rw (System.◌>>=◌, u) refl)

  -- Once a message has been sent, whether that succeeds or not, no round sends another before the
  -- waiting interval has passed, as long as no message arrives, the button stays as it was, and the
  -- clock does not wrap meanwhile: such a round is an `update` and a look at the clock.
  pub message_paced :
      (reading : ℕ) (c : Client) (rc : Bool) (s s' : System) (d d' : D) (t t' : System)
      → sl.send
          (message (record c { packet_num = c.packet_num + 1 }) (get_bat_info reading))
          (read_clock s)
        ≡ returns rc s'
      → env.clock (last_reading rc s') + c.wait_interval < 2 ^ 32
      → sl.update d t ≡ returns d' t'
      → t'.delivered ≡ t.delivered
      → env.clock t'.clock_reads ≤ env.clock (last_reading rc s') + c.wait_interval
      → let sent = sent_at (env.clock (last_reading rc s')) c in
        ((s2 : System) × (send_message env sl reading c s ≡ returns sent s2))
        × (loop env sl c.b_current reading d sent t ≡ returns (d', sent) (read_clock t'))
  message_paced reading c rc s s' d d' t t' u w v q l = (
    send_message_lem reading c rc s s' u,
    loop_waits c.b_current reading d d' (sent_at (env.clock (last_reading rc s')) c) t t' v q refl
        (omega (arith, l, w)),
  )
