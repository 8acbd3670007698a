-- ===== src/Client/Window.antt =====
-- client/MainWindow.cpp: what the main window shows, and how it follows the client.
pub mod Sync
use xsky.Base.{
  ℕ, ◌+◌, ◌<◌, ◌≡◌, ◌⊎◌, inl, inr, refl, sym, ap, ap₂, ◌∙◌, List, [], ◌∷◌, Bool, true, false, not,
  ◌&&◌, Option, none, some, ltb, arith, Bool-cases, if◌then◌else◌, lt→ltb, subst,
}
use xsky.Client.Controller.{
  Text, Message, Client, publish, read_config, start_service, stop_service, start_capture,
  stop_capture, set_server, set_domain_list, set_device_list, set_protocol_list, on_lookup_host,
  same_text, same_list, construct, Settings,
}
use xsky.Client.Controller.Restart.{
  Action, starts, stops, ends_capture, captures, sets_server, sets_domains, sets_devices,
  sets_protocols, receives, looks_up, act,
}

-- The two actions, the labels of the server and of the status, and the icon of the button.
pub record View : Type 0 where
  pub start_enabled : Bool
  pub stop_enabled : Bool
  pub label_server : Text
  pub status_on : Bool
  pub icon_stop : Bool

-- The body of the constructor and of the slot for `configChanged`.
pub view_of : Client → View
view_of c = record {
  start_enabled = not c.is_start;
  stop_enabled = c.is_start;
  label_server = c.server;
  status_on = c.is_start;
  icon_stop = c.is_start;
}

pub record Window : Type 0 where
  pub client : Client
  pub view : View

pub open_window : Client → Window
open_window c = record { client = c; view = view_of c }

-- The slot runs where the client has emitted the signal.
pub follow : Window → Client → Window
follow w c = record {
  client = c;
  view = if ltb w.client.changes c.changes then view_of c else w.view;
}

pub on_start_triggered : Window → Window
on_start_triggered w = follow w (start_service w.client)

pub on_stop_triggered : Window → Window
on_stop_triggered w = follow w (stop_service w.client)

pub on_label_clicked : Window → Window
on_label_clicked w = if w.client.is_start then on_stop_triggered w else on_start_triggered w

-- For an event of an object: whether that is the label, and the event the release of a button.
pub event_filter : Window → (is_label is_release : Bool) → Window
event_filter w is_label is_release = if is_label && is_release then on_label_clicked w else w

-- What the user does in the window, and what happens in dialogs and in the network.
pub data Event : Type 0 where
  start_triggered stop_triggered : Event
  filtered : (is_label is_release : Bool) → Event
  elsewhere : Action → Event

pub handle : Window → Event → Window
handle w start_triggered = on_start_triggered w
handle w stop_triggered = on_stop_triggered w
handle w (filtered is_label is_release) = event_filter w is_label is_release
handle w (elsewhere a) = follow w (act w.client a)

pub handle_all : Window → List Event → Window
handle_all w [] = w
handle_all w (e ∷ es) = handle_all (handle w e) es
