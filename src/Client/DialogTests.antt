-- ===== src/Client/DialogTests.antt =====
-- client/: the theorems on the window and the dialogs at concrete runs.
use xsky.Base.{
  ℕ, ◌<◌, ◌≤◌, ◌≡◌, ◌⊎◌, refl, List, [], ◌∷◌, ◌++◌, length, true, false, not, none, some, map, All,
  arith,
}
use xsky.Client.Controller.{Text, publish, same_list, set_server}
use xsky.Client.Controller.Restart.{sets_server, receives}
use xsky.Client.QtText.Plain.{plain, plain-IsQtText, split}
use xsky.Client.Mac.{is_mac, zero_mac}
use xsky.Client.Rows.{
  Row, Edit, adds, names, texts, row_of, open_domains, accept_domains, line_of, open_devices,
  accept_devices, edit_devices, checked_name,
}
use xsky.Client.Rows.Reopen.{IsPlainRow, accept_domains_lem}
use xsky.Client.Rows.Named.{HasMac, accept_devices_lem}
use xsky.Client.Servers.{Entry, open_servers, accept_servers, edit, edit_all, deletes}
use xsky.Client.Servers.Single.{count_checked, has_deletion, IsSelected, accept_servers_lem}
use xsky.Client.Window.{Event, filtered, elsewhere, handle, handle_all, open_window}
use xsky.Client.Window.Sync.{handle_all-view}
use xsky.Client.Capture.{create_eth, text_src, text_dst}
use xsky.Client.Capture.Ethernet.{mac_at, create_eth_lem}
use xsky.Client.Tests.{client}

-- a, with the second choice and the comment b.
abbrev rows : List Row
rows = record { name = b'a' ∷ []; choice = some 1; text = b'b' ∷ [] } ∷ []

abbrev rows-IsPlainRow : All IsPlainRow rows
rows-IsPlainRow = (
  record {
    name-percent = ((λ e. omega (arith, e)), tt);
    name-bar = ((λ e. omega (arith, e)), tt);
    choice-IsChoice = omega arith;
    text-bar = ((λ e. omega (arith, e)), tt);
  },
  tt,
)

accept_domains_lem_example :
    (open_domains plain (accept_domains plain client rows).domains ≡ some rows)
    × (same_list client.domains (map (line_of plain) rows) ≡ true
        → accept_domains plain client rows ≡ client)
    × (same_list client.domains (map (line_of plain) rows) ≡ false
        → accept_domains plain client rows
          ≡ publish (record client { domains = map (line_of plain) rows }))
accept_domains_lem_example = accept_domains_lem plain client rows plain-IsQtText rows-IsPlainRow

-- The line `x|1|`: its name is no address.
abbrev lines : List Text
lines = (b'x' ∷ b'|' ∷ b'1' ∷ b'|' ∷ []) ∷ []

abbrev opened : List Row
opened = record { name = zero_mac; choice = some 1; text = [] } ∷ []

abbrev edits : List Edit
edits = adds ∷ names 1 (b'y' ∷ []) ∷ texts 0 (b't' ∷ []) ∷ []

accept_devices_lem_example :
    All HasMac (accept_devices plain client (edit_devices opened edits)).devices
unfolding open_devices row_of split checked_name is_mac
accept_devices_lem_example = accept_devices_lem plain client lines opened edits plain-IsQtText refl

abbrev file : List Entry
file = record { ip = b'i' ∷ []; port = some 7; desc = [] } ∷ []

accept_servers_lem_example :
    ((es : List xsky.Client.Servers.Edit)
      → has_deletion es ≡ false
      → (rs : List xsky.Client.Servers.Row) × (edit_all plain
            (open_servers plain client.server [] file)
            es
          ≡ some rs)
        × (((count_checked rs ≡ 0) × ((accept_servers plain client rs).1 ≡ client))
            ⊎ ((row : xsky.Client.Servers.Row) × IsSelected plain rs row
                × ((accept_servers plain client rs).1
                    ≡ set_server client (plain.arg2 row.ip row.port)))))
    × ((before after : List xsky.Client.Servers.Row) (row : xsky.Client.Servers.Row)
        → edit plain (before ++ row ∷ after) (deletes (length before)) ≡ none)
accept_servers_lem_example = accept_servers_lem plain client file

abbrev events : List Event
events = filtered true true ∷ elsewhere (sets_server (b'b' ∷ [])) ∷ elsewhere (receives none) ∷ []

handle_all-view_example :
    let w = handle_all (open_window client) events in
    (w.view.start_enabled ≡ not w.client.is_start)
    × (w.view.stop_enabled ≡ w.client.is_start)
    × (w.view.label_server ≡ w.client.server)
    × (w.view.status_on ≡ w.client.is_start)
    × (w.view.icon_stop ≡ w.client.is_start)
    × ((handle w (filtered true true)).client.is_start ≡ not w.client.is_start)
handle_all-view_example = handle_all-view client events

abbrev frame : List ℕ
frame = 1 ∷ 2 ∷ 3 ∷ 4 ∷ 5 ∷ 6 ∷ 250 ∷ 251 ∷ 252 ∷ 253 ∷ 254 ∷ 255 ∷ 8 ∷ 0 ∷ []

create_eth_lem_example :
    (12 ≤ 14
      → (create_eth plain frame
          ≡ some (
            text_src plain ++ mac_at plain frame 6 ++ text_dst plain ++ mac_at plain frame 0,
            0,
            14,
          ))
        × (is_mac (mac_at plain frame 6) ≡ true)
        × (is_mac (mac_at plain frame 0) ≡ true))
    × (14 < 11 → create_eth plain frame ≡ none)
create_eth_lem_example = create_eth_lem plain frame plain-IsQtText (ground arith)
