-- ===== src/Client/Controller/Restart.antt =====
-- client/Controller.cpp: what the file and the datagrams keep of the settings.
use xsky.Base.{
  ◌≡◌, ◌⊎◌, inl, inr, refl, ap, List, [], ◌∷◌, ◌++◌, Bool, true, false, not, Option, none, some,
  Bool-cases, arith, if◌then◌else◌,
}
use xsky.Client.Controller.{
  Text, Message, Datagram, config, Client, message_of, settings_of, publish, read_config,
  start_service, stop_service, start_capture, stop_capture, set_server, set_domain_list,
  set_device_list, set_protocol_list, same_text, same_list, on_lookup_host, construct,
}

-- What the user or the network does to the client. A datagram without bytes is `receives none`.
pub data Action : Type 0 where
  starts stops ends_capture : Action
  captures : Text → Action
  sets_server : Text → Action
  sets_domains : List Text → Action
  sets_devices : List Text → Action
  sets_protocols : List Text → Action
  receives : Option Message → Action
  looks_up : Option (List Text) → Action

unfoldable pub act : Client → Action → Client
act c starts = start_service c
act c stops = stop_service c
act c ends_capture = stop_capture c
act c (captures setting) = start_capture c setting
act c (sets_server endpoint) = set_server c endpoint
act c (sets_domains domains) = set_domain_list c domains
act c (sets_devices devices) = set_device_list c devices
act c (sets_protocols protocols) = set_protocol_list c protocols
act c (receives m) = read_config c m
act c (looks_up found) = on_lookup_host c found

-- The action published the settings that it leaves: in the file, and in one more datagram with the
-- start flag, the server and the domains, and no protocols.
abbrev pub IsPublished : Client → Client → Type 0
IsPublished c c' =
    (c'.ini ≡ settings_of c')
    × (c'.sent
        ≡ c.sent
          ++ config (record {
            start = c'.is_start;
            server = c'.server;
            domains = c'.domains;
            protocols = [];
          })
            ∷ [])

-- The actions that change settings without a call of `WriteConfig`.
unfoldable pub is_unwritten : Action → Bool
is_unwritten (sets_devices devices) = true
is_unwritten (receives m) = true
is_unwritten starts = false
is_unwritten stops = false
is_unwritten ends_capture = false
is_unwritten (captures setting) = false
is_unwritten (sets_server endpoint) = false
is_unwritten (sets_domains domains) = false
is_unwritten (sets_protocols protocols) = false
is_unwritten (looks_up found) = false

-- A client that is made anew from a file has the settings that the file was written from.
construct-settings_of : (c : Client) → settings_of (construct (settings_of c)) ≡ settings_of c
unfolding construct read_config
construct-settings_of c = refl

abbrev Published : Client → Client → Type 0
Published c c' = IsPublished c c' × (settings_of (construct c'.ini) ≡ settings_of c')

abbrev Written : Client → Client → Type 0
Written c c' = ((c'.ini ≡ c.ini) × (settings_of c' ≡ settings_of c)) ⊎ Published c c'

publish-Written :
    (b : Bool) (c c' : Client) → c'.sent ≡ c.sent → Written c (if b then publish c' else c)
unfolding publish message_of
publish-Written true c c' e = inr (
  (
    refl,
    ap
        (λ (s : List Datagram).
          s
          ++ config (record {
            start = c'.is_start;
            server = c'.server;
            domains = c'.domains;
            protocols = [];
          })
            ∷ [])
        e,
  ),
  construct-settings_of c',
)
publish-Written false c c' e = inl (refl, refl)

-- Every action but the setting of devices and a datagram that arrives either changes no setting and
-- leaves the file as it is, or publishes: then the file holds the settings that the action leaves,
-- one datagram with their start flag, server and domains is sent, and a client made anew from the
-- file has them. Those two leave the file as it is.
pub act_lem :
    (c : Client) (a : Action)
    → (is_unwritten a ≡ false
        → ((act c a).ini ≡ c.ini) × (settings_of (act c a) ≡ settings_of c)
          ⊎ IsPublished c (act c a)
            × (settings_of (construct (act c a).ini) ≡ settings_of (act c a)))
      × (is_unwritten a ≡ true → (act c a).ini ≡ c.ini)
unfolding act is_unwritten start_service stop_service set_server set_domain_list set_device_list
    set_protocol_list read_config on_lookup_host
act_lem c starts = (
  (λ w. publish-Written (not c.is_start) c (record c { is_start = true }) refl),
  (λ w. absurd (ground (arith, w))),
)
act_lem c stops = (
  (λ w. publish-Written c.is_start c (record c { is_start = false }) refl),
  (λ w. absurd (ground (arith, w))),
)
act_lem c ends_capture = (
  (λ w. inl (unfold stop_capture in (ground arith, ground arith))),
  (λ w. absurd (ground (arith, w))),
)
act_lem c (captures setting) = (
  (λ w. inl (unfold start_capture in (ground arith, ground arith))),
  (λ w. absurd (ground (arith, w))),
)
act_lem c (sets_server endpoint) = (
  (λ w.
      publish-Written (not (same_text c.server endpoint)) c (record c { server = endpoint }) refl),
  (λ w. absurd (ground (arith, w))),
)
act_lem c (sets_domains domains) = (
  (λ w.
      publish-Written (not (same_list c.domains domains)) c (record c { domains = domains }) refl),
  (λ w. absurd (ground (arith, w))),
)
act_lem c (sets_protocols protocols) = (
  (λ w.
      publish-Written (not (same_list c.protocols protocols)) c (record c { protocols = protocols })
        refl),
  (λ w. absurd (ground (arith, w))),
)
act_lem c (looks_up none) = ((λ w. inl (refl, refl)), (λ w. absurd (ground (arith, w))))
act_lem c (looks_up (some found)) = ((λ w. inl (refl, refl)), (λ w. absurd (ground (arith, w))))
act_lem c (sets_devices devices) = ((λ w. absurd (ground (arith, w))), (λ w. refl))
act_lem c (receives none) = ((λ w. absurd (ground (arith, w))), (λ w. refl))
act_lem c (receives (some m)) = ((λ w. absurd (ground (arith, w))), (λ w. refl))

-- Starting a started service, or stopping a stopped one, does nothing, and a service that is started
-- and then stopped has sent two datagrams that differ in the start flag only.
start_stop_lem :
    (c : Client)
    → ((c.is_start ≡ true) × (start_service c ≡ c))
      ⊎ ((stop_service c ≡ c)
          × ((stop_service (start_service c)).is_start ≡ false)
          × ((stop_service (start_service c)).sent
              ≡ c.sent
                ++ config (record (message_of c) { start = true }) ∷ []
                ++ config (record (message_of c) { start = false }) ∷ []))
unfolding start_service stop_service publish message_of
start_stop_lem c = elim (Bool-cases c.is_start) [
  | inl on ↦ inl (on, ground (arith, on))
  | inr off ↦ inr (ground (arith, off), ground (arith, off), ground (arith, off))
]
