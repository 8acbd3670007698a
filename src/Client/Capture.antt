-- ===== src/Client/Capture.antt =====
-- client/CaptureDialog.cpp: the capture of packets, the selection in the hex view, and the text of
-- an Ethernet header.
pub mod Button
pub mod Ethernet
use xsky.Base.{
  ◌>>=◌, ℕ, zero, suc, ◌+◌, ◌*◌, ◌/◌, ◌%◌, ◌<◌, List, [], ◌∷◌, ◌++◌, Bool, true, false, Option,
  none, some, length, byte_at, replicate, ltb, ◌==◌, if◌then◌else◌,
}
use xsky.Client.Controller.{Text, Client, start_capture, stop_capture}
use xsky.Client.QtText.{QtText, colon}

-- A row of the table; the texts of columns 1 to 4 are those of the four functions below.
pub record Row : Type 0 where
  pub packet : List ℕ
  pub address : Text
  pub protocol : Text
  pub size : Text
  pub description : Text

-- The bodies of these functions return an empty text.
get_address : List ℕ → Text
get_address packet = []

get_protocol : List ℕ → Text
get_protocol packet = []

get_length : List ℕ → Text
get_length packet = []

get_description : List ℕ → Text
get_description packet = []

pub row_of : List ℕ → Row
row_of packet = record {
  packet = packet;
  address = get_address packet;
  protocol = get_protocol packet;
  size = get_length packet;
  description = get_description packet;
}

-- The dialog: whether the two fields can be changed, whether the button offers to stop, and the rows.
pub record Dialog : Type 0 where
  pub line_enabled : Bool
  pub tool_enabled : Bool
  pub offers_stop : Bool
  pub rows : List Row

-- The constructor puts a row of 87 ones into the table.
pub open_dialog : Dialog
open_dialog = record {
  line_enabled = true;
  tool_enabled = true;
  offers_stop = false;
  rows = row_of (replicate 87 b'1') ∷ [];
}

-- The slot for `captureItem`.
pub capture_item : Dialog → List ℕ → Dialog
capture_item d packet = record d { rows = d.rows ++ row_of packet ∷ [] }

pub on_push_clicked : Client → Dialog → (line : Text) → Client × Dialog
on_push_clicked c d line =
    let stopped : Dialog = record d {
      line_enabled = true;
      tool_enabled = true;
      offers_stop = false;
    } in
    let started : Dialog = record d {
      line_enabled = false;
      tool_enabled = false;
      offers_stop = true;
    } in
    if c.is_capture then (stop_capture c, stopped) else (start_capture c line, started)

pub close_event : Client → Client
close_event c = if c.is_capture then stop_capture c else c

-- A place in the hex view.
pub record Place : Type 0 where
  pub line : ℕ
  pub column : ℕ

-- `on_treeWidget_itemClicked`, with the item's range of bytes: where the cursor is moved, and up to
-- where it selects. `none` is a division by a line width of 0.
pub on_item_clicked : (beg fin line_sz : ℕ) → Option (Place × Place)
on_item_clicked beg fin line_sz =
    if line_sz == 0
    then none
    else some (
      record { line = beg / line_sz; column = beg % line_sz },
      record { line = fin / line_sz; column = fin % line_sz },
    )

-- A byte through `constData`, which has a zero behind the last; `none` is a read beyond that.
pub load : List ℕ → ℕ → Option ℕ
load bytes i = if ltb i (length bytes + 1) then some (byte_at bytes i) else none

module _ (q : QtText) where
  -- Six bytes with colons between them.
  pub mac_text : (a b c d e f : ℕ) → Text
  mac_text a b c d e f =
      q.hex2 a
      ++ colon
        ∷ (q.hex2 b
            ++ colon ∷ (q.hex2 c ++ colon ∷ (q.hex2 d ++ colon ∷ (q.hex2 e ++ colon ∷ q.hex2 f))))

  pub load_mac : List ℕ → ℕ → Option Text
  load_mac bytes at = do
    a ← load bytes at
    b ← load bytes (at + 1)
    c ← load bytes (at + 2)
    d ← load bytes (at + 3)
    e ← load bytes (at + 4)
    f ← load bytes (at + 5)
    some (mac_text a b c d e f)

  -- `Ethernet, Src: `
  abbrev pub text_src : Text
  text_src =
      b'E' ∷ b't' ∷ b'h' ∷ b'e' ∷ b'r' ∷ b'n' ∷ b'e' ∷ b't' ∷ b',' ∷ b' ' ∷ b'S' ∷ b'r' ∷ b'c'
      ∷ b':' ∷ b' ' ∷ []

  -- `, Dst: `
  abbrev pub text_dst : Text
  text_dst = b',' ∷ b' ' ∷ b'D' ∷ b's' ∷ b't' ∷ b':' ∷ b' ' ∷ []

  -- `CreateEth`: the text of the item and its range, from 0 to the size of the header. The address
  -- that is read first, of the source, stands behind that of the destination.
  pub create_eth : List ℕ → Option (Text × ℕ × ℕ)
  create_eth bytes = do
    src ← load_mac bytes 6
    dst ← load_mac bytes 0
    some (text_src ++ src ++ text_dst ++ dst, 0, 14)

  -- `on_tableWidget_cellClicked` and `CreateTree`: the item for the row, if there is one.
  on_cell_clicked : Dialog → ℕ → Option (Option (Text × ℕ × ℕ))
  on_cell_clicked d i = clicked d.rows i
    where
      clicked : List Row → ℕ → Option (Option (Text × ℕ × ℕ))
      clicked [] i = some none
      clicked (r ∷ rs) zero = create_eth r.packet >>= λ item. some (some item)
      clicked (r ∷ rs) (suc i) = clicked rs i
