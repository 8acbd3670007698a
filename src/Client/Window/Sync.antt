-- ===== src/Client/Window/Sync.antt =====
-- client/MainWindow.cpp: the window shows what the client is at.
use xsky.Base.{
  ◌<◌, ◌≡◌, ◌⊎◌, inl, inr, refl, ap, ◌∙◌, List, [], ◌∷◌, Bool, true, false, not, ◌&&◌, none, some,
  ltb, arith, Bool-cases, if◌then◌else◌, lt→ltb,
}
use xsky.Client.Controller.{
  Client, publish, read_config, start_service, stop_service, start_capture, stop_capture,
  set_server, set_domain_list, set_device_list, set_protocol_list, on_lookup_host, same_text,
  same_list,
}
use xsky.Client.Controller.Restart.{
  Action, starts, stops, ends_capture, captures, sets_server, sets_domains, sets_devices,
  sets_protocols, receives, looks_up, act,
}
use xsky.Client.Window.{
  View, view_of, Window, open_window, follow, on_start_triggered, on_stop_triggered,
  on_label_clicked, event_filter, Event, start_triggered, stop_triggered, filtered, elsewhere,
  handle, handle_all,
}

-- A change that the window has to follow: with a signal, or of nothing that it shows.
abbrev IsSignalled : Client → Client → Type 0
IsSignalled c c' =
    (c.changes < c'.changes)
    ⊎ ((c'.is_start ≡ c.is_start) × (c'.server ≡ c.server) × (c'.changes ≡ c.changes))

publish-IsSignalled :
    (b : Bool) (c c' : Client)
    → c'.changes ≡ c.changes
    → IsSignalled c (if b then publish c' else c)
unfolding publish
publish-IsSignalled true c c' e = inl (omega (arith, e))
publish-IsSignalled false c c' e = inr (refl, refl, refl)

act-IsSignalled : (c : Client) (a : Action) → IsSignalled c (act c a)
unfolding act start_service stop_service set_server set_domain_list set_device_list
    set_protocol_list read_config on_lookup_host
act-IsSignalled c starts = publish-IsSignalled (not c.is_start) c _ refl
act-IsSignalled c stops = publish-IsSignalled c.is_start c _ refl
act-IsSignalled c ends_capture = elim (Bool-cases c.is_capture) [
  | inl on ↦ inr (unfold stop_capture in rw on (refl, refl, refl))
  | inr off ↦ inr (unfold stop_capture in rw off (refl, refl, refl))
]
act-IsSignalled c (captures setting) = elim (Bool-cases c.is_capture) [
  | inl on ↦ inr (unfold start_capture in rw on (refl, refl, refl))
  | inr off ↦ inr (unfold start_capture in rw off (refl, refl, refl))
]
act-IsSignalled c (sets_server endpoint) =
    publish-IsSignalled (not (same_text c.server endpoint)) c _ refl
act-IsSignalled c (sets_domains domains) =
    publish-IsSignalled (not (same_list c.domains domains)) c _ refl
act-IsSignalled c (sets_devices devices) = inr (refl, refl, refl)
act-IsSignalled c (sets_protocols protocols) =
    publish-IsSignalled (not (same_list c.protocols protocols)) c _ refl
act-IsSignalled c (receives none) = inl (omega arith)
act-IsSignalled c (receives (some m)) = inl (omega arith)
act-IsSignalled c (looks_up none) = inr (refl, refl, refl)
act-IsSignalled c (looks_up (some found)) = inr (refl, refl, refl)

abbrev IsInSync : Window → Type 0
IsInSync w = w.view ≡ view_of w.client

follow-IsInSync :
    (w : Window) (c : Client) → IsInSync w → IsSignalled w.client c → IsInSync (follow w c)
unfolding follow view_of
follow-IsInSync w c s (inl more) = rw (lt→ltb w.client.changes c.changes more) refl
follow-IsInSync w c s (inr (start, server, changes)) =
    let silent : ltb w.client.changes c.changes ≡ false = ground (arith, changes) in
    rw silent (s ∙ rw (start, server) refl)

if-IsInSync : (b : Bool) (u v : Window) → IsInSync u → IsInSync v → IsInSync (if b then u else v)
if-IsInSync true u v hu hv = hu
if-IsInSync false u v hu hv = hv

handle-IsInSync : (w : Window) (e : Event) → IsInSync w → IsInSync (handle w e)
unfolding handle on_start_triggered on_stop_triggered event_filter on_label_clicked act
handle-IsInSync w start_triggered s =
    follow-IsInSync w (start_service w.client) s (act-IsSignalled w.client starts)
handle-IsInSync w stop_triggered s =
    follow-IsInSync w (stop_service w.client) s (act-IsSignalled w.client stops)
handle-IsInSync w (elsewhere a) s =
    follow-IsInSync w (act w.client a) s (act-IsSignalled w.client a)
handle-IsInSync w (filtered is_label is_release) s =
    if-IsInSync (is_label && is_release) _ w
      (if-IsInSync w.client.is_start _ _
        (follow-IsInSync w (stop_service w.client) s (act-IsSignalled w.client stops))
        (follow-IsInSync w (start_service w.client) s (act-IsSignalled w.client starts)))
      s

handle_all-IsInSync : (w : Window) (es : List Event) → IsInSync w → IsInSync (handle_all w es)
unfolding handle_all
handle_all-IsInSync w [] s = s
handle_all-IsInSync w (e ∷ es) s = handle_all-IsInSync (handle w e) es (handle-IsInSync w e s)

click_toggles :
    (w : Window) → (handle w (filtered true true)).client.is_start ≡ not w.client.is_start
unfolding handle event_filter on_label_clicked on_start_triggered on_stop_triggered follow
    start_service stop_service publish
click_toggles w = elim (Bool-cases w.client.is_start) [
  | inl on ↦ rw on refl
  | inr off ↦ rw off refl
]

-- Whatever happens in the window, in the dialogs and in the network after it is opened: it offers to
-- start just a stopped service and to stop just a started one, and its labels and its icon are those
-- of the client's state and server. A click on the label starts a stopped service and stops a
-- started one.
pub handle_all-view :
    (c : Client) (es : List Event)
    → let w = handle_all (open_window c) es in
      (w.view.start_enabled ≡ not w.client.is_start)
      × (w.view.stop_enabled ≡ w.client.is_start)
      × (w.view.label_server ≡ w.client.server)
      × (w.view.status_on ≡ w.client.is_start)
      × (w.view.icon_stop ≡ w.client.is_start)
      × ((handle w (filtered true true)).client.is_start ≡ not w.client.is_start)
unfolding view_of
handle_all-view c es =
    let w = handle_all (open_window c) es in
    let sync : w.view ≡ view_of w.client =
      handle_all-IsInSync (open_window c) es (unfold open_window in refl) in
    (
      ap (λ (v : View). v.start_enabled) sync,
      ap (λ (v : View). v.stop_enabled) sync,
      ap (λ (v : View). v.label_server) sync,
      ap (λ (v : View). v.status_on) sync,
      ap (λ (v : View). v.icon_stop) sync,
      click_toggles w,
    )
