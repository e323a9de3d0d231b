-- ===== src/Mqtt/Wifi/Down.antt =====
-- `wifi_connect` while the network stays down, and what it has seen when it returns.
use steamlink_arduino.Prelude.{
  ℕ, zero, suc, ◌≤◌, ◌<◌, ◌≡◌, refl, sym, ap, subst, ◌∙◌, true, false, Bool-cases, ◌⊎◌, inl, inr,
  List, [], ◌∷◌, arith, length,
}
use steamlink_arduino.Prelude.Startup.{Startup, ready, hangs, waits, ◌>>=◌, is_ready, ready_or}
use steamlink_arduino.Mqtt.Wifi.{
  Wifi, Credentials, wait, try_networks, try_rounds, wifi_connect, Seen, Down,
}

module _ {W : Type 0} (wifi : Wifi W) where
  seen : (w : W) → (wifi.status w).1 ≡ true → Seen wifi (wifi.status w).0
  seen w u = (w, ap (λ b. ((wifi.status w).0, b)) u)

  -- a test of the network, in the two loops outside
  pub rounds-up :
      (fuel : ℕ) (creds : List Credentials) (w : W)
      → (wifi.status w).1 ≡ true
      → try_rounds wifi (suc fuel) creds w ≡ ready (wifi.status w).0
  unfolding try_rounds
  rounds-up fuel creds w u = rw u refl

  pub rounds-down :
      (fuel : ℕ) (creds : List Credentials) (w : W)
      → (wifi.status w).1 ≡ false
      → try_rounds wifi (suc fuel) creds w
        ≡ (try_networks wifi creds 5 (wifi.status w).0 >>= try_rounds wifi fuel creds)
  unfolding try_rounds
  rounds-down fuel creds w u = rw u refl

  pub connect-up :
      (fuel : ℕ) (creds : List Credentials) (w : W)
      → (wifi.status w).1 ≡ true
      → wifi_connect wifi fuel creds w ≡ ready (wifi.status w).0
  unfolding wifi_connect
  connect-up fuel creds w u = rw u refl

  pub connect-down :
      (fuel : ℕ) (creds : List Credentials) (w : W)
      → (wifi.status w).1 ≡ false
      → wifi_connect wifi fuel creds w ≡ try_rounds wifi fuel creds (wifi.status w).0
  unfolding wifi_connect
  connect-down fuel creds w u = rw u refl

  after_networks :
      (fuel : ℕ) (creds : List Credentials) (w' : W) (r : Startup W)
      → ((v : W) → try_rounds wifi fuel creds v ≡ ready w' → Seen wifi w')
      → (r >>= try_rounds wifi fuel creds) ≡ ready w'
      → Seen wifi w'
  after_networks fuel creds w' (ready v) h e = h v e
  after_networks fuel creds w' hangs h e = absurd (ground (arith, ap is_ready e))
  after_networks fuel creds w' waits h e = absurd (ground (arith, ap is_ready e))

  rounds-Seen :
      (fuel : ℕ) (creds : List Credentials) (w w' : W)
      → try_rounds wifi fuel creds w ≡ ready w'
      → Seen wifi w'
  unfolding try_rounds
  rounds-Seen zero creds w w' e = absurd (ground (arith, ap is_ready e))
  rounds-Seen (suc fuel) creds w w' e = elim (Bool-cases (wifi.status w).1) [
    | inl u ↦ subst (Seen wifi) (ap (ready_or w') (sym (rounds-up fuel creds w u) ∙ e)) (seen w u)
    | inr u ↦
        after_networks fuel creds w' (try_networks wifi creds 5 (wifi.status w).0)
          (λ v. rounds-Seen fuel creds v w') (sym (rounds-down fuel creds w u) ∙ e)
  ]

  networks-Down :
      (creds : List Credentials) (cnt0 : ℕ) (w : W)
      → Down wifi
      → ((length creds ≤ cnt0) × (w' : W) × (try_networks wifi creds cnt0 w ≡ ready w'))
        ⊎ ((cnt0 < length creds) × (try_networks wifi creds cnt0 w ≡ hangs))
  unfolding try_networks
  networks-Down [] cnt0 w d = inl (omega arith, w, refl)
  networks-Down (c ∷ rest) zero w d =
      let w' = wait wifi 15 (wifi.begin c.ssid c.pass (wifi.status w).0) in
      inr (omega arith, rw (d w, d w') refl)
  networks-Down (c ∷ rest) (suc cnt0) w d =
      let w' = wait wifi 15 (wifi.begin c.ssid c.pass (wifi.status w).0) in
      rw (d w, d w')
        (elim (networks-Down rest cnt0 (wifi.status w').0 d) [
          | inl (l, v, e) ↦ inl (omega (arith, l), v, e)
          | inr (l, e) ↦ inr (omega (arith, l), e)
        ])

  rounds_wait :
      (fuel : ℕ) (creds : List Credentials) (w : W)
      → Down wifi
      → length creds ≤ 5
      → try_rounds wifi fuel creds w ≡ waits
  unfolding try_rounds
  rounds_wait zero creds w d l = refl
  rounds_wait (suc fuel) creds w d l =
      rounds-down fuel creds w (d w) ∙ elim (networks-Down creds 5 (wifi.status w).0 d) [
        | inl (m, v, e) ↦ rw e (rounds_wait fuel creds v d l)
        | inr (m, e) ↦ absurd (omega (arith, l, m))
      ]

-- `wifi_connect` is left only when the library has just told that the network is connected.
pub wifi_connect-Seen :
    {W : Type 0} (wifi : Wifi W) (fuel : ℕ) (creds : List Credentials) (w w' : W)
    → wifi_connect wifi fuel creds w ≡ ready w'
    → Seen wifi w'
wifi_connect-Seen wifi fuel creds w w' e = elim (Bool-cases (wifi.status w).1) [
  | inl u ↦
      subst (Seen wifi) (ap (ready_or w') (sym (connect-up wifi fuel creds w u) ∙ e))
        (seen wifi w u)
  | inr u ↦
      rounds-Seen wifi fuel creds (wifi.status w).0 w' (sym (connect-down wifi fuel creds w u) ∙ e)
]

-- While no network comes up, `wifi_connect` with six or more networks gives up in an endless loop
-- in its first round; with fewer it tries them again and again, in any number of rounds.
pub wifi_connect-Down :
    {W : Type 0} (wifi : Wifi W) (fuel : ℕ) (creds : List Credentials) (w : W)
    → Down wifi
    → (5 < length creds → wifi_connect wifi (suc fuel) creds w ≡ hangs)
      × (length creds ≤ 5 → wifi_connect wifi fuel creds w ≡ waits)
wifi_connect-Down wifi fuel creds w d =
    let w1 = (wifi.status w).0 in
    (
      λ l.
          connect-down wifi (suc fuel) creds w (d w)
          ∙ rounds-down wifi fuel creds w1 (d w1)
          ∙ elim (networks-Down wifi creds 5 (wifi.status w1).0 d) [
            | inl (m, v, e) ↦ absurd (omega (arith, l, m))
            | inr (m, e) ↦ rw e refl
          ],
      λ l. connect-down wifi fuel creds w (d w) ∙ rounds_wait wifi fuel creds w1 d l,
    )
