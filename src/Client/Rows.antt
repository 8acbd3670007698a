-- ===== src/Client/Rows.antt =====
-- client/DomainListDialog.cpp and client/DeviceListDialog.cpp: the rows of the two dialogs, which
-- are lines with bars between their three parts in the settings.
pub mod Reopen
pub mod Named
use xsky.Base.{
  ◌>>=◌, ℕ, zero, suc, ◌<◌, List, [], ◌∷◌, ◌++◌, Bool, true, false, not, ◌&&◌, ◌||◌, Option, none,
  some, map, set, get_or, ltb, leb, ◌==◌, if◌then◌else◌, length,
}
use xsky.Client.Controller.{Text, Client, set_domain_list, set_device_list}
use xsky.Client.QtText.{QtText, Choice}
use xsky.Client.Mac.{is_mac, zero_mac}

-- An item of the tree: the text of column 0, the index of the combo box, the text of column 2.
pub record Row : Type 0 where
  pub name : Text
  pub choice : Choice
  pub text : Text

-- `setCurrentIndex` of a combo box with three entries.
abbrev pub current_index : Choice → Choice
current_index none = none
current_index (some i) = if ltb i 3 then some i else none

-- What the user does to the tree. A change of a cell has the row's number.
pub data Edit : Type 0 where
  adds : Edit
  deletes : ℕ → Edit
  names : ℕ → Text → Edit
  chooses : ℕ → Choice → Edit
  texts : ℕ → Text → Edit

abbrev is_empty : Text → Bool
is_empty [] = true
is_empty (c ∷ t) = false

-- `on_treeWidget_itemChanged`, for column 0: what the text becomes.
unfoldable pub checked_name : Text → Text
checked_name name = if not (is_empty name) && not (is_mac name) then zero_mac else name

-- `takeTopLevelItem`
pub take_row : List Row → ℕ → List Row
take_row [] i = []
take_row (r ∷ rs) zero = rs
take_row (r ∷ rs) (suc i) = r ∷ take_row rs i

-- A change of the row with a number; there is none where the number is too large.
pub change : List Row → ℕ → (Row → Row) → List Row
change [] i f = []
change (r ∷ rs) zero f = f r ∷ rs
change (r ∷ rs) (suc i) f = r ∷ change rs i f

module _ (q : QtText) where
  -- `list[0]`, `list[1]` and `list[2]`; `none` is an index out of range.
  unfoldable pub row_of : List Text → Option Row
  row_of (a ∷ b ∷ c ∷ rest) =
      some (record { name = a; choice = current_index (q.to_int b); text = c })
  row_of [] = none
  row_of (a ∷ []) = none
  row_of (a ∷ b ∷ []) = none

  -- The constructor of the dialog of the domains.
  pub open_domains : List Text → Option (List Row)
  open_domains [] = some []
  open_domains (line ∷ lines) = do
    row ← row_of (q.split line)
    rows ← open_domains lines
    some (row ∷ rows)

  -- That of the dialog of the devices: the slot for changes of an item is connected already.
  unfoldable pub open_devices : List Text → Option (List Row)
  open_devices [] = some []
  open_devices (line ∷ lines) = do
    row ← row_of (q.split line)
    rows ← open_devices lines
    some (record row { name = checked_name row.name } ∷ rows)

  pub line_of : Row → Text
  line_of row = q.arg3 row.name row.choice row.text

  -- `on_pushButtonAccept_clicked` of the domains.
  pub accept_domains : Client → List Row → Client
  accept_domains c rows = set_domain_list c (map line_of rows)

  -- The lines of the rows with a name.
  pub device_lines : List Row → List Text
  device_lines [] = []
  device_lines (row ∷ rows) =
      let rest = device_lines rows in if is_empty row.name then rest else line_of row ∷ rest

  -- `on_pushButtonAccept_clicked` of the devices.
  pub accept_devices : Client → List Row → Client
  accept_devices c rows = set_device_list c (device_lines rows)

-- www.baidu.com and baidu
abbrev default_domain : Row
default_domain = record {
  name =
      b'w' ∷ b'w' ∷ b'w' ∷ b'.' ∷ b'b' ∷ b'a' ∷ b'i' ∷ b'd' ∷ b'u' ∷ b'.' ∷ b'c' ∷ b'o' ∷ b'm' ∷ [];
  choice = some 0;
  text = b'b' ∷ b'a' ∷ b'i' ∷ b'd' ∷ b'u' ∷ [];
}

abbrev pub default_device : Row
default_device = record { name = zero_mac; choice = some 0; text = [] }

edit_domain : List Row → Edit → List Row
edit_domain rows adds = rows ++ default_domain ∷ []
edit_domain rows (deletes i) = take_row rows i
edit_domain rows (names i t) = change rows i (λ r. record r { name = t })
edit_domain rows (chooses i c) = change rows i (λ r. record r { choice = current_index c })
edit_domain rows (texts i t) = change rows i (λ r. record r { text = t })

pub edit_device : List Row → Edit → List Row
edit_device rows adds = rows ++ default_device ∷ []
edit_device rows (deletes i) = take_row rows i
edit_device rows (names i t) = change rows i (λ r. record r { name = checked_name t })
edit_device rows (chooses i c) = change rows i (λ r. record r { choice = current_index c })
edit_device rows (texts i t) = change rows i (λ r. record r { text = t })

pub edit_devices : List Row → List Edit → List Row
edit_devices rows [] = rows
edit_devices rows (e ∷ es) = edit_devices (edit_device rows e) es
