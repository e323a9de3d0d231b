-- ===== src/Mqtt/Wifi.antt =====
-- `wifi_connect` of SteamLinkESP.cpp. The WiFi library is an argument, over the state of the board;
-- what is printed is left out. The outer loop has no bound of its own, so it runs on fuel.
pub mod Down
pub mod Reach
use steamlink_arduino.Prelude.{
  ℕ, zero, suc, ◌+◌, ◌≤◌, ◌<◌, ◌≡◌, refl, sym, ap, subst, ◌∙◌, Bool, true, false, Bool-cases, ◌⊎◌,
  inl, inr, List, [], ◌∷◌, ◌++◌, arith, length, if◌then◌else◌,
}
use steamlink_arduino.Prelude.Startup.{Startup, ready, hangs, waits, ◌>>=◌, is_ready, ready_or}

-- `status` tells whether `WiFi.status()` is `WL_CONNECTED`. Time passes in every call.
pub record Wifi (W : Type 0) : Type 0 where
  pub status : W → W × Bool
  pub begin : List ℕ → List ℕ → W → W
  pub delay : ℕ → W → W

-- `struct SteamLinkWiFi`. The array of credentials ends with a NULL `ssid`, which is the list's end.
pub record Credentials : Type 0 where
  pub ssid : List ℕ
  pub pass : List ℕ

abbrev pub wifi_waitseconds : ℕ
wifi_waitseconds = 15

module _ {W : Type 0} (wifi : Wifi W) where
  -- the innermost loop, with `cnt`
  unfoldable pub wait : ℕ → W → W
  wait zero w = let (w1, up) = wifi.status w in if up then w1 else wifi.delay 1000 w1
  wait (suc cnt) w =
      let (w1, up) = wifi.status w in
      let later = wait cnt (wifi.delay 1000 w1) in if up then w1 else later

  -- the loop over the networks from `ptr` on, with `cnt0`
  unfoldable pub try_networks : List Credentials → ℕ → W → Startup W
  try_networks [] cnt0 w = ready w
  try_networks (c ∷ rest) zero w =
      let (w1, up) = wifi.status w in
      let (w2, up') = wifi.status (wait wifi_waitseconds (wifi.begin c.ssid c.pass w1)) in
      if up then ready w1 else if up' then ready w2 else hangs
  try_networks (c ∷ rest) (suc cnt0) w =
      let (w1, up) = wifi.status w in
      let (w2, up') = wifi.status (wait wifi_waitseconds (wifi.begin c.ssid c.pass w1)) in
      let next = try_networks rest cnt0 w2 in
      if up then ready w1 else if up' then ready w2 else next

  unfoldable pub try_rounds : ℕ → List Credentials → W → Startup W
  try_rounds zero creds w = waits
  try_rounds (suc fuel) creds w =
      let (w1, up) = wifi.status w in
      let later = (do w2 ← try_networks creds 5 w1; try_rounds fuel creds w2) in
      if up then ready w1 else later

  unfoldable pub wifi_connect : ℕ → List Credentials → W → Startup W
  wifi_connect fuel creds w =
      let (w1, up) = wifi.status w in
      let rounds = try_rounds fuel creds w1 in if up then ready w1 else rounds

-- the board after so many further seconds of the innermost loop
abbrev pub seconds : {W : Type 0} → Wifi W → ℕ → W → W
seconds wifi zero w = w
seconds wifi (suc k) w = seconds wifi k (wifi.delay 1000 (wifi.status w).0)

-- what the last call of `status` told
abbrev pub Seen : {W : Type 0} → Wifi W → W → Type 0
Seen {W} wifi w = (v : W) × (wifi.status v ≡ (w, true))

-- the network does not come up
abbrev pub Down : {W : Type 0} → Wifi W → Type 0
Down {W} wifi = (w : W) → (wifi.status w).1 ≡ false
