-- ===== src/Client/Servers.antt =====
-- client/ServerListDialog.cpp: the list of servers of config.ini, and which of them is selected.
pub mod Single
use xsky.Base.{
  Option, none, some, ◌>>=◌, ℕ, zero, suc, List, [], ◌∷◌, ◌++◌, Bool, true, false, if◌then◌else◌,
}
use xsky.Client.Controller.{Text, Client, set_server, same_text}
use xsky.Client.QtText.{QtText, Choice}

-- An element of the array `Servers` of config.ini.
pub record Entry : Type 0 where
  pub ip : Text
  pub port : Choice
  pub desc : Text

-- An item of the tree, with its check box.
pub record Row : Type 0 where
  pub ip : Text
  pub port : Text
  pub desc : Text
  pub checked : Bool

-- The group of the buttons is exclusive: where one is checked, the others are not.
pub uncheck : List Row → List Row
uncheck [] = []
uncheck (r ∷ rs) = record r { checked = false } ∷ uncheck rs

pub check_at : List Row → ℕ → List Row
check_at [] i = []
check_at (r ∷ rs) zero = record r { checked = true } ∷ uncheck rs
check_at (r ∷ rs) (suc i) = record r { checked = false } ∷ check_at rs i

-- What the user does to the tree. A click on a box checks it, also where it is checked already.
pub data Edit : Type 0 where
  adds : Edit
  deletes clicks : ℕ → Edit
  writes : ℕ → (ip port desc : Text) → Edit

-- Whether `takeTopLevelItem` finds an item.
pub has_row : List Row → ℕ → Bool
has_row [] i = false
has_row (r ∷ rs) zero = true
has_row (r ∷ rs) (suc i) = has_row rs i

pub write : List Row → ℕ → (ip port desc : Text) → List Row
write [] i ip port desc = []
write (r ∷ rs) zero ip port desc = record r { ip = ip; port = port; desc = desc } ∷ rs
write (r ∷ rs) (suc i) ip port desc = r ∷ write rs i ip port desc

module _ (q : QtText) where
  -- The loop of the constructor, behind the rows that are there. `select` is the client's server.
  pub open_servers : (select : Text) → List Row → List Entry → List Row
  open_servers select rows [] = rows
  open_servers select rows (e ∷ es) =
      let port = q.number e.port in
      let row : Row = record { ip = e.ip; port = port; desc = e.desc; checked = false } in
      let found = same_text (q.arg2 e.ip port) select in
      open_servers select
        (if found then uncheck rows ++ record row { checked = true } ∷ [] else rows ++ row ∷ []) es

  -- 127.0.0.1, and port 48888
  abbrev pub default_row : Row
  default_row = record {
    ip = b'1' ∷ b'2' ∷ b'7' ∷ b'.' ∷ b'0' ∷ b'.' ∷ b'0' ∷ b'.' ∷ b'1' ∷ [];
    port = b'4' ∷ b'8' ∷ b'8' ∷ b'8' ∷ b'8' ∷ [];
    desc = [];
    checked = false;
  }

  -- The array that `on_pushButtonAccept_clicked` writes.
  pub entries_of : List Row → List Entry
  entries_of [] = []
  entries_of (r ∷ rs) = record { ip = r.ip; port = q.to_int r.port; desc = r.desc } ∷ entries_of rs

  -- Its calls of `SetServer`.
  pub select_servers : Client → List Row → Client
  select_servers c [] = c
  select_servers c (r ∷ rs) =
      select_servers (if r.checked then set_server c (q.arg2 r.ip r.port) else c) rs

  pub accept_servers : Client → List Row → List Entry × Client
  accept_servers c rows = (entries_of rows, select_servers c rows)

  -- `none` is a crash. The row is taken from the tree before its check box is asked for, so that
  -- `itemWidget` is NULL, through which `removeButton` reads.
  pub edit : List Row → Edit → Option (List Row)
  edit rows adds = some (rows ++ default_row ∷ [])
  edit rows (deletes i) = if has_row rows i then none else some rows
  edit rows (clicks i) = some (check_at rows i)
  edit rows (writes i ip port desc) = some (write rows i ip port desc)

  pub edit_all : List Row → List Edit → Option (List Row)
  edit_all rows [] = some rows
  edit_all rows (e ∷ es) = edit rows e >>= λ rows'. edit_all rows' es
