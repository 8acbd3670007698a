-- ===== src/Client/Rows/Named.antt =====
-- client/DeviceListDialog.cpp: the names of the devices that the dialog sets.
use xsky.Base.{
  ℕ, zero, suc, ◌≡◌, ◌⊎◌, inl, inr, refl, List, [], ◌∷◌, ◌++◌, true, false, some, All, arith,
  Bool-cases, Option-cases, some_inj, append-All, subst,
}
use xsky.Client.Controller.{Text, Client, set_device_list}
use xsky.Client.QtText.{QtText, IsQtText, bar}
use xsky.Client.Mac.{is_mac, zero_mac_lem, is_mac-IsFree}
use xsky.Client.Rows.{
  Row, Edit, adds, deletes, names, chooses, texts, is_empty, checked_name, take_row, change, row_of,
  open_devices, line_of, device_lines, accept_devices, edit_device, edit_devices,
}

-- A row whose name is empty or of the form of an address.
abbrev IsNamed : Row → Type 0
IsNamed row = (row.name ≡ []) ⊎ (is_mac row.name ≡ true)

checked_name-IsNamed : (t : Text) → (checked_name t ≡ []) ⊎ (is_mac (checked_name t) ≡ true)
unfolding checked_name
checked_name-IsNamed [] = inl refl
checked_name-IsNamed (c ∷ t) = elim (Bool-cases (is_mac (c ∷ t))) [
  | inl good ↦ inr (rw good good)
  | inr bad ↦ inr (rw bad zero_mac_lem)
]

take_row-All : (rows : List Row) (i : ℕ) → All IsNamed rows → All IsNamed (take_row rows i)
unfolding take_row
take_row-All [] i w = tt
take_row-All (r ∷ rs) zero w = w.1
take_row-All (r ∷ rs) (suc i) w = (w.0, take_row-All rs i w.1)

change-All :
    (rows : List Row) (i : ℕ) (f : Row → Row)
    → ((r : Row) → IsNamed r → IsNamed (f r))
    → All IsNamed rows
    → All IsNamed (change rows i f)
unfolding change
change-All [] i f h w = tt
change-All (r ∷ rs) zero f h w = (h r w.0, w.1)
change-All (r ∷ rs) (suc i) f h w = (w.0, change-All rs i f h w.1)

edit_device-All : (rows : List Row) (e : Edit) → All IsNamed rows → All IsNamed (edit_device rows e)
unfolding edit_device
edit_device-All rows adds w = append-All IsNamed rows _ w (inr zero_mac_lem, tt)
edit_device-All rows (deletes i) w = take_row-All rows i w
edit_device-All rows (names i t) w = change-All rows i _ (λ r h. checked_name-IsNamed t) w
edit_device-All rows (chooses i c) w = change-All rows i _ (λ r h. h) w
edit_device-All rows (texts i t) w = change-All rows i _ (λ r h. h) w

edit_devices-All :
    (rows : List Row) (es : List Edit) → All IsNamed rows → All IsNamed (edit_devices rows es)
unfolding edit_devices
edit_devices-All rows [] w = w
edit_devices-All rows (e ∷ es) w =
    edit_devices-All (edit_device rows e) es (edit_device-All rows e w)

module _ (q : QtText) where
  open_devices-All :
      (lines : List Text) (rows : List Row) → open_devices q lines ≡ some rows → All IsNamed rows
  unfolding open_devices
  open_devices-All [] rows e = subst (All IsNamed) (some_inj e) tt
  open_devices-All (line ∷ lines) rows e = elim (Option-cases (row_of q (q.split line))) [
    | inl none_ ↦ absurd (ground (arith, none_, e))
    | inr (r, at) ↦ elim (Option-cases (open_devices q lines)) [
      | inl none_ ↦ absurd (ground (arith, at, none_, e))
      | inr (rs, at') ↦
          let first : Row = record r { name = checked_name r.name } in
          let same : first ∷ rs ≡ rows = ground (arith, at, at', e) in
          subst (All IsNamed) same (checked_name-IsNamed r.name, open_devices-All lines rs at')
    ]
  ]

-- A line of the settings that starts with an address.
abbrev pub HasMac : Text → Type 0
HasMac line = (mac : Text) × (rest : Text) × (is_mac mac ≡ true) × (line ≡ mac ++ bar ∷ rest)

is_mac-is_empty : (t : Text) → is_mac t ≡ true → is_empty t ≡ false
unfolding is_mac
is_mac-is_empty [] e = absurd (ground (arith, e))
is_mac-is_empty (c ∷ t) e = refl

device_lines-All :
    (q : QtText) (rows : List Row)
    → IsQtText q
    → All IsNamed rows
    → All HasMac (device_lines q rows)
unfolding device_lines line_of
device_lines-All q [] laws w = tt
device_lines-All q (row ∷ rows) laws w = elim w.0 [
  | inl empty ↦ rw empty (device_lines-All q rows laws w.1)
  | inr named ↦
      let line : HasMac (line_of q row) = (
        row.name,
        q.number row.choice ++ (bar ∷ row.text),
        named,
        laws.arg3-free row.name row.choice row.text (is_mac-IsFree row.name named),
      ) in
      rw (is_mac-is_empty row.name named) (line, device_lines-All q rows laws w.1)
]

-- Whatever lines the settings held, and whatever the user did to the rows: where the dialog opens,
-- every line that it sets starts with a hardware address and a bar.
pub accept_devices_lem :
    (q : QtText) (c : Client) (lines : List Text) (rows : List Row) (es : List Edit)
    → IsQtText q
    → open_devices q lines ≡ some rows
    → All HasMac (accept_devices q c (edit_devices rows es)).devices
unfolding accept_devices set_device_list
accept_devices_lem q c lines rows es laws e =
    device_lines-All q (edit_devices rows es) laws
      (edit_devices-All rows es (open_devices-All q lines rows e))
