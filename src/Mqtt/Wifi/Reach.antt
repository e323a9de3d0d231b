-- ===== src/Mqtt/Wifi/Reach.antt =====
-- `wifi_connect` where one of the networks is in reach.
use steamlink_arduino.Prelude.{
  ℕ, zero, suc, ◌≤◌, ◌≡◌, refl, ap, ◌∙◌, true, false, Bool-cases, inl, inr, List, [], ◌∷◌, ◌++◌,
  arith, length, if◌then◌else◌,
}
use steamlink_arduino.Prelude.Startup.{Startup, ready, hangs, ◌>>=◌}
use steamlink_arduino.Mqtt.Wifi.{
  Wifi, Credentials, wait, try_networks, try_rounds, wifi_connect, seconds,
}
use steamlink_arduino.Mqtt.Wifi.Down.{rounds-up, rounds-down, connect-up, connect-down}

-- what the driver relies on where a network is in reach
pub record InReach {W : Type 0} (wifi : Wifi W) (c : Credentials) : Type 0 where
  pub comes_up :
      (w : W)
      → (k : ℕ) × (k ≤ 15) × ((wifi.status (seconds wifi k (wifi.begin c.ssid c.pass w))).1 ≡ true)
  pub stays : (w : W) → (wifi.status w).1 ≡ true → (wifi.status (wifi.status w).0).1 ≡ true

module _ {W : Type 0} (wifi : Wifi W) (c : Credentials) (reach : InReach wifi c) where
  wait-up :
      (k cnt : ℕ) (w : W)
      → k ≤ cnt
      → (wifi.status (seconds wifi k w)).1 ≡ true
      → (wifi.status (wait wifi cnt w)).1 ≡ true
  unfolding wait
  wait-up zero zero w l u = rw u (reach.stays w u)
  wait-up zero (suc cnt) w l u = rw u (reach.stays w u)
  wait-up (suc k) zero w l u = absurd (omega (arith, l))
  wait-up (suc k) (suc cnt) w l u = elim (Bool-cases (wifi.status w).1) [
    | inl e ↦ rw e (reach.stays w e)
    | inr e ↦ rw e (wait-up k cnt (wifi.delay 1000 (wifi.status w).0) (omega (arith, l)) u)
  ]

  -- what one network comes to: up before it is tried, up with it, or left to the `rest`
  settle :
      (w v : W) (rest : Startup W)
      → ((wifi.status v).1 ≡ false → (x : W) × (rest ≡ ready x) × ((wifi.status x).1 ≡ true))
      → (x : W) × ((if (wifi.status w).1
            then ready (wifi.status w).0
            else if (wifi.status v).1
            then ready (wifi.status v).0
            else rest)
          ≡ ready x)
        × ((wifi.status x).1 ≡ true)
  settle w v rest h = elim (Bool-cases (wifi.status w).1) [
    | inl e ↦ ((wifi.status w).0, rw e refl, reach.stays w e)
    | inr e ↦ elim (Bool-cases (wifi.status v).1) [
      | inl e' ↦ ((wifi.status v).0, rw (e, e') refl, reach.stays v e')
      | inr e' ↦ let (x, r, u) = h e' in (x, rw (e, e') r, u)
    ]
  ]

  waited : W → Credentials → W
  waited w b = wait wifi 15 (wifi.begin b.ssid b.pass (wifi.status w).0)

  -- The network that is in reach does not leave anything to the rest.
  not_down :
      (w : W) (rest : Startup W)
      → (wifi.status (waited w c)).1 ≡ false
      → (x : W) × (rest ≡ ready x) × ((wifi.status x).1 ≡ true)
  unfolding waited
  not_down w rest e =
      let (k, l, u) = reach.comes_up (wifi.status w).0 in
      let up = wait-up k 15 (wifi.begin c.ssid c.pass (wifi.status w).0) l u in
      absurd (ground (arith, up, e))

  networks_up :
      (before after : List Credentials) (cnt0 : ℕ) (w : W)
      → length before ≤ cnt0
      → (w' : W) × (try_networks wifi (before ++ (c ∷ after)) cnt0 w ≡ ready w')
        × ((wifi.status w').1 ≡ true)
  unfolding try_networks waited
  networks_up [] after zero w l = settle w (waited w c) hangs (not_down w hangs)
  networks_up [] after (suc cnt0) w l =
      let rest = try_networks wifi after cnt0 (wifi.status (waited w c)).0 in
      settle w (waited w c) rest (not_down w rest)
  networks_up (b ∷ before) after zero w l = absurd (omega (arith, l))
  networks_up (b ∷ before) after (suc cnt0) w l =
      let v = (wifi.status (waited w b)).0 in
      settle w (waited w b) (try_networks wifi (before ++ (c ∷ after)) cnt0 v)
        (λ e. networks_up before after cnt0 v (omega (arith, l)))

-- Where a network in reach stands among the first six, `wifi_connect` returns, in two rounds of its
-- outer loop at most, whatever networks stand before it and behind it.
pub wifi_connect-up :
    {W : Type 0} (wifi : Wifi W) (c : Credentials) (before after : List Credentials) (w : W)
    → InReach wifi c
    → length before ≤ 5
    → (w' : W) × (wifi_connect wifi 2 (before ++ (c ∷ after)) w ≡ ready w')
wifi_connect-up wifi c before after w reach l =
    let creds = before ++ (c ∷ after) in
    let w1 = (wifi.status w).0 in
    let (w2, e, u) = networks_up wifi c reach before after 5 (wifi.status w1).0 l in
    elim (Bool-cases (wifi.status w).1) [
      | inl y ↦ (w1, connect-up wifi 2 creds w y)
      | inr n ↦ elim (Bool-cases (wifi.status w1).1) [
        | inl y ↦ ((wifi.status w1).0, connect-down wifi 2 creds w n ∙ rounds-up wifi 1 creds w1 y)
        | inr m ↦ (
          (wifi.status w2).0,
          connect-down wifi 2 creds w n
              ∙ rounds-down wifi 1 creds w1 m
              ∙ ap (λ r. r >>= try_rounds wifi 1 creds) e
              ∙ rounds-up wifi 0 creds w2 u,
        )
      ]
    ]
