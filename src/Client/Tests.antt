-- ===== src/Client/Tests.antt =====
-- client/Controller.cpp: the theorems at a concrete client.
use xsky.Base.{◌≡◌, ◌⊎◌, [], ◌∷◌, true, false}
use xsky.Client.Controller.{Client, settings_of, construct}
use xsky.Client.Controller.Restart.{sets_server, act, is_unwritten, IsPublished, act_lem}

abbrev pub client : Client
client = record {
  is_start = false;
  server = b'a' ∷ [];
  domains = (b'x' ∷ []) ∷ [];
  devices = [];
  protocols = (b'p' ∷ []) ∷ [];
  is_capture = false;
  route_address = [];
  ini = record { start = false; server = []; domains = []; devices = []; protocols = [] };
  sent = [];
  changes = 1;
}

act_lem_example :
    let action = sets_server (b'b' ∷ []) in
    let c = act client action in
    (is_unwritten action ≡ false
      → (c.ini ≡ client.ini) × (settings_of c ≡ settings_of client)
        ⊎ IsPublished client c × (settings_of (construct c.ini) ≡ settings_of c))
    × (is_unwritten action ≡ true → c.ini ≡ client.ini)
act_lem_example = act_lem client (sets_server (b'b' ∷ []))
