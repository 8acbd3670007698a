-- ===== src/Client/Servers/Single.antt =====
-- client/ServerListDialog.cpp: never more than one server is selected.
use xsky.Base.{
  ℕ, zero, suc, ◌+◌, ◌≤◌, ◌≡◌, ◌⊎◌, inl, inr, refl, ap, List, [], ◌∷◌, ◌++◌, Bool, none, some,
  length, ◌||◌, true, false, arith, Bool-cases, if◌then◌else◌,
}
use xsky.Client.Controller.{Text, Client, set_server, same_text}
use xsky.Client.QtText.{QtText}
use xsky.Client.Servers.{
  Entry, Row, uncheck, check_at, Edit, adds, deletes, clicks, writes, has_row, write, open_servers,
  default_row, select_servers, accept_servers, edit, edit_all,
}

-- How many boxes are checked.
unfoldable pub count_checked : List Row → ℕ
count_checked [] = 0
count_checked (r ∷ rs) = (if r.checked then 1 else 0) + count_checked rs

count_checked-append :
    (xs ys : List Row) → count_checked (xs ++ ys) ≡ count_checked xs + count_checked ys
unfolding count_checked
count_checked-append [] ys = omega arith
count_checked-append (x ∷ xs) ys = omega (arith, count_checked-append xs ys)

count_checked-uncheck : (rs : List Row) → count_checked (uncheck rs) ≡ 0
unfolding count_checked uncheck
count_checked-uncheck [] = refl
count_checked-uncheck (r ∷ rs) = omega (arith, count_checked-uncheck rs)

count_checked-check_at : (rs : List Row) (i : ℕ) → count_checked (check_at rs i) ≤ 1
unfolding count_checked check_at
count_checked-check_at [] i = omega arith
count_checked-check_at (r ∷ rs) zero = omega (arith, count_checked-uncheck rs)
count_checked-check_at (r ∷ rs) (suc i) = omega (arith, count_checked-check_at rs i)

count_checked-write :
    (rs : List Row) (i : ℕ) (ip port desc : Text)
    → count_checked (write rs i ip port desc) ≡ count_checked rs
unfolding count_checked write
count_checked-write [] i ip port desc = refl
count_checked-write (r ∷ rs) zero ip port desc = refl
count_checked-write (r ∷ rs) (suc i) ip port desc =
    omega (arith, count_checked-write rs i ip port desc)

-- Whether the user deletes a row.
unfoldable pub is_deletion : Edit → Bool
is_deletion adds = false
is_deletion (deletes i) = true
is_deletion (clicks i) = false
is_deletion (writes i ip port desc) = false

unfoldable pub has_deletion : List Edit → Bool
has_deletion [] = false
has_deletion (e ∷ es) = is_deletion e || has_deletion es

has_row-there :
    (before after : List Row) (row : Row) → has_row (before ++ row ∷ after) (length before) ≡ true
unfolding has_row
has_row-there [] after row = refl
has_row-there (r ∷ before) after row = has_row-there before after row

module _ (q : QtText) where
  open_servers-single :
      (select : Text) (rows : List Row) (es : List Entry)
      → count_checked rows ≤ 1
      → count_checked (open_servers q select rows es) ≤ 1
  unfolding open_servers count_checked
  open_servers-single select rows [] h = h
  open_servers-single select rows (e ∷ es) h =
      let port = q.number e.port in
      let row : Row = record { ip = e.ip; port = port; desc = e.desc; checked = false } in
      elim (Bool-cases (same_text (q.arg2 e.ip port) select)) [
        | inl found ↦ rw found (
            open_servers-single select (uncheck rows ++ record row { checked = true } ∷ []) es (
              omega (
                arith,
                count_checked-append (uncheck rows) (record row { checked = true } ∷ []),
                count_checked-uncheck rows,
              )))
        | inr other ↦ rw other (
            open_servers-single select (rows ++ row ∷ []) es
              (omega (arith, h, count_checked-append rows (row ∷ []))))
      ]

  -- An edit but a deletion returns, and leaves at most one box checked.
  edit-single :
      (rows : List Row) (e : Edit)
      → is_deletion e ≡ false
      → count_checked rows ≤ 1
      → (rows' : List Row) × (edit q rows e ≡ some rows') × (count_checked rows' ≤ 1)
  unfolding edit count_checked is_deletion
  edit-single rows adds d h = (
    rows ++ default_row q ∷ [],
    refl,
    omega (arith, h, count_checked-append rows (default_row q ∷ [])),
  )
  edit-single rows (deletes i) d h = absurd (ground (arith, d))
  edit-single rows (clicks i) d h = (check_at rows i, refl, count_checked-check_at rows i)
  edit-single rows (writes i ip port desc) d h =
      (write rows i ip port desc, refl, omega (arith, h, count_checked-write rows i ip port desc))

  edit_all-single :
      (rows : List Row) (es : List Edit)
      → has_deletion es ≡ false
      → count_checked rows ≤ 1
      → (rows' : List Row) × (edit_all q rows es ≡ some rows') × (count_checked rows' ≤ 1)
  unfolding edit_all has_deletion
  edit_all-single rows [] d h = (rows, refl, h)
  edit_all-single rows (e ∷ es) d h =
      let (rows1, first, h1) = edit-single rows e (ground (arith, d)) h in
      let (rows2, rest, h2) = edit_all-single rows1 es (ground (arith, d)) h1 in
      (rows2, rw (edit_all, first) rest, h2)

  select_servers-none :
      (c : Client) (rows : List Row) → count_checked rows ≡ 0 → select_servers q c rows ≡ c
  unfolding select_servers count_checked
  select_servers-none c [] h = refl
  select_servers-none c (r ∷ rs) h = elim (Bool-cases r.checked) [
    | inl on ↦ absurd (ground (arith, on, h))
    | inr off ↦ rw off (select_servers-none c rs (ground (arith, off, h)))
  ]

  -- One row is the only one that is checked.
  abbrev pub IsSelected : List Row → Row → Type 0
  IsSelected rows row =
      (before : List Row) × (after : List Row) × (rows ≡ before ++ row ∷ after)
      × (row.checked ≡ true)
      × (count_checked before ≡ 0)
      × (count_checked after ≡ 0)

  select_servers-single :
      (c : Client) (rows : List Row)
      → count_checked rows ≤ 1
      → ((count_checked rows ≡ 0) × (select_servers q c rows ≡ c))
        ⊎ ((row : Row) × IsSelected rows row
            × (select_servers q c rows ≡ set_server c (q.arg2 row.ip row.port)))
  unfolding select_servers count_checked
  select_servers-single c [] h = inl (refl, refl)
  select_servers-single c (r ∷ rs) h = elim (Bool-cases r.checked) [
    | inl on ↦
        let none_ : count_checked rs ≡ 0 = ground (arith, on, h) in
        inr (r, ([], rs, refl, on, refl, none_), rw on (select_servers-none _ rs none_))
    | inr off ↦ elim (select_servers-single c rs (ground (arith, off, h))) [
      | inl (n, e) ↦ inl (ground (arith, off, n), rw off e)
      | inr (row, (before, after, at, checked, n, m), e) ↦ inr (
        row,
        (r ∷ before, after, ap (λ (t : List Row). r ∷ t) at, checked, ground (arith, off, n), m),
        rw off e,
      )
    ]
  ]

  -- Whatever the file held and whatever the user did but to delete a row, the dialog does not crash,
  -- and either no box is checked, and accepting leaves the client as it is; or just one is, and
  -- accepting makes its row the client's server. The deletion of any row crashes.
  pub accept_servers_lem :
      (c : Client) (file : List Entry)
      → ((es : List Edit)
          → has_deletion es ≡ false
          → (rows : List Row) × (edit_all q (open_servers q c.server [] file) es ≡ some rows)
            × (((count_checked rows ≡ 0) × ((accept_servers q c rows).1 ≡ c))
                ⊎ ((row : Row) × IsSelected rows row
                    × ((accept_servers q c rows).1 ≡ set_server c (q.arg2 row.ip row.port)))))
        × ((before after : List Row) (row : Row)
            → edit q (before ++ row ∷ after) (deletes (length before)) ≡ none)
  unfolding accept_servers count_checked edit
  accept_servers_lem c file = (
    (λ es d.
        let (rows, run, single) =
          edit_all-single (open_servers q c.server [] file) es d
            (open_servers-single c.server [] file (omega arith)) in
        (rows, run, select_servers-single c rows single)),
    (λ before after row. rw (has_row-there before after row) refl),
  )
