-- ===== src/Client/Controller.antt =====
-- client/Controller.cpp: the settings of the client, its file config.ini and its datagrams to the
-- route. Texts are lists of characters; a JSON object is the record of the values that are inserted.
pub mod Same
pub mod Restart
use xsky.Base.{
  ℕ, ◌+◌, List, [], ◌∷◌, ◌++◌, Bool, true, false, not, ◌&&◌, Option, none, some, ◌==◌,
  if◌then◌else◌,
}

abbrev pub Text : Type 0
Text = List ℕ

-- `==` of `QString` and of `QStringList`.
unfoldable pub same_text : Text → Text → Bool
same_text [] [] = true
same_text [] (d ∷ t) = false
same_text (c ∷ s) [] = false
same_text (c ∷ s) (d ∷ t) = c == d && same_text s t

unfoldable pub same_list : List Text → List Text → Bool
same_list [] [] = true
same_list [] (y ∷ ys) = false
same_list (x ∷ xs) [] = false
same_list (x ∷ xs) (y ∷ ys) = same_text x y && same_list xs ys

-- The group `Controller` of config.ini as it is read, with the defaults for what is missing.
pub record Settings : Type 0 where
  pub start : Bool
  pub server : Text
  pub domains : List Text
  pub devices : List Text
  pub protocols : List Text

-- The JSON object of a configuration; `{}` reads as the record of empty values.
pub record Message : Type 0 where
  pub start : Bool
  pub server : Text
  pub domains : List Text
  pub protocols : List Text

pub data Datagram : Type 0 where
  config : Message → Datagram
  empty_config : Datagram
  capture : Text → Datagram
  empty_capture : Datagram

-- `Controller::Private`, with the file, the datagrams sent, oldest first, and how often
-- `configChanged` was emitted.
pub record Client : Type 0 where
  pub is_start : Bool
  pub server : Text
  pub domains : List Text
  pub devices : List Text
  pub protocols : List Text
  pub is_capture : Bool
  pub route_address : Text
  pub ini : Settings
  pub sent : List Datagram
  pub changes : ℕ

-- The JSON object that `WriteConfig` returns: the protocols are pushed to `domains`, after that was
-- inserted, and not to `protocols`.
pub message_of : Client → Message
message_of c = record { start = c.is_start; server = c.server; domains = c.domains; protocols = [] }

abbrev pub settings_of : Client → Settings
settings_of c = record {
  start = c.is_start;
  server = c.server;
  domains = c.domains;
  devices = c.devices;
  protocols = c.protocols;
}

-- `WriteConfig`, the datagram with its result, and the signal.
unfoldable pub publish : Client → Client
publish c = record c {
  ini = settings_of c;
  sent = c.sent ++ config (message_of c) ∷ [];
  changes = c.changes + 1;
}

-- `ReadConfig`, of a datagram or of the file. The lists of a datagram go to local arrays; those of
-- the file are pushed behind the client's.
unfoldable pub read_config : Client → Option Message → Client
read_config c (some m) = record c { is_start = m.start; server = m.server; changes = c.changes + 1 }
read_config c none = record c {
  is_start = c.ini.start;
  server = c.ini.server;
  domains = c.domains ++ c.ini.domains;
  devices = c.devices ++ c.ini.devices;
  protocols = c.protocols ++ c.ini.protocols;
  changes = c.changes + 1;
}

unfoldable pub start_service : Client → Client
start_service c = if not c.is_start then publish (record c { is_start = true }) else c

unfoldable pub stop_service : Client → Client
stop_service c = if c.is_start then publish (record c { is_start = false }) else c

unfoldable pub start_capture : Client → Text → Client
start_capture c setting =
    if not c.is_capture
    then record c { is_capture = true; sent = c.sent ++ capture setting ∷ [] }
    else c

unfoldable pub stop_capture : Client → Client
stop_capture c =
    if c.is_capture then record c { is_capture = false; sent = c.sent ++ empty_capture ∷ [] } else c

unfoldable pub set_server : Client → Text → Client
set_server c endpoint =
    if not (same_text c.server endpoint) then publish (record c { server = endpoint }) else c

unfoldable pub set_domain_list : Client → List Text → Client
set_domain_list c domains =
    if not (same_list c.domains domains) then publish (record c { domains = domains }) else c

unfoldable pub set_device_list : Client → List Text → Client
set_device_list c devices = record c { devices = devices }

unfoldable pub set_protocol_list : Client → List Text → Client
set_protocol_list c protocols =
    if not (same_list c.protocols protocols)
    then publish (record c { protocols = protocols })
    else c

-- `addresses` is what the lookup found, `none` an error. The last address is kept.
unfoldable pub last_of : Text → List Text → Text
last_of a [] = a
last_of a (b ∷ bs) = last_of b bs

unfoldable pub on_lookup_host : Client → Option (List Text) → Client
on_lookup_host c none = c
on_lookup_host c (some addresses) = record c {
  route_address = last_of c.route_address addresses;
  sent = c.sent ++ empty_config ∷ empty_capture ∷ [];
}

-- `Private` as it is made, and the constructor's `ReadConfig( {} )`.
pub construct : Settings → Client
construct ini =
    read_config
      (record {
        is_start = false;
        server = [];
        domains = [];
        devices = [];
        protocols = [];
        is_capture = false;
        route_address = [];
        ini = ini;
        sent = [];
        changes = 0;
      })
      none
