-- ===== src/Client/Rows/Reopen.antt =====
-- client/DomainListDialog.cpp: what the dialog shows of the domains that it has set.
use xsky.Base.{
  ◌≡◌, refl, ap, ◌∙◌, List, [], ◌∷◌, true, false, none, some, map, All, arith, Bool-cases, inl, inr,
}
use xsky.Client.Controller.{Text, Client, publish, set_domain_list, same_list}
use xsky.Client.Controller.Same.{same_list-eq}
use xsky.Client.QtText.{QtText, IsQtText, IsFree, IsChoice, Choice, bar, percent}
use xsky.Client.Rows.{Row, current_index, row_of, open_domains, line_of, accept_domains}

-- Rows whose parts a line can hold.
pub record IsPlainRow (row : Row) : Type 0 where
  pub name-percent : IsFree percent row.name
  pub name-bar : IsFree bar row.name
  pub choice-IsChoice : IsChoice row.choice
  pub text-bar : IsFree bar row.text

current_index_lem : (c : Choice) → IsChoice c → current_index c ≡ c
current_index_lem none h = refl
current_index_lem (some i) h = ground (arith, h)

module _ (q : QtText) (laws : IsQtText q) where
  row_of-line_of : (row : Row) → IsPlainRow row → row_of q (q.split (line_of q row)) ≡ some row
  unfolding line_of row_of
  row_of-line_of row w =
      let n = q.number row.choice in
      let cut : q.split (q.arg3 row.name row.choice row.text) ≡ row.name ∷ n ∷ row.text ∷ [] =
        ap q.split (laws.arg3-free row.name row.choice row.text w.name-percent)
        ∙ laws.split-bar row.name _ w.name-bar
        ∙ ap (λ (ts : List Text). row.name ∷ ts)
            (laws.split-bar n row.text (laws.number-IsFree row.choice w.choice-IsChoice)
              ∙ ap (λ (ts : List Text). n ∷ ts) (laws.split-last row.text w.text-bar)) in
      rw
        (
          cut,
          laws.to_int-number row.choice w.choice-IsChoice,
          current_index_lem row.choice w.choice-IsChoice,
        )
        refl

  open_domains-lines :
      (rows : List Row) → All IsPlainRow rows → open_domains q (map (line_of q) rows) ≡ some rows
  unfolding open_domains
  open_domains-lines [] w = refl
  open_domains-lines (row ∷ rows) w = rw (row_of-line_of row w.0, open_domains-lines rows w.1) refl

set_domain_list-domains :
    (c : Client) (domains : List Text) → (set_domain_list c domains).domains ≡ domains
unfolding set_domain_list publish
set_domain_list-domains c domains = elim (Bool-cases (same_list c.domains domains)) [
  | inl same ↦ rw same (same_list-eq c.domains domains same)
  | inr other ↦ rw other refl
]

set_domain_list-cases :
    (c : Client) (domains : List Text)
    → (same_list c.domains domains ≡ true → set_domain_list c domains ≡ c)
      × (same_list c.domains domains ≡ false
          → set_domain_list c domains ≡ publish (record c { domains = domains }))
unfolding set_domain_list
set_domain_list-cases c domains = (λ same. rw same refl, λ other. rw other refl)

-- With rows whose names have no bar and no percent sign, whose comments have no bar, and whose
-- choices the combo box has, the dialog that is opened again after it was accepted shows the same
-- rows. The settings are published where the lines differ from those before, and else left alone.
pub accept_domains_lem :
    (q : QtText) (c : Client) (rows : List Row)
    → IsQtText q
    → All IsPlainRow rows
    → (open_domains q (accept_domains q c rows).domains ≡ some rows)
      × (same_list c.domains (map (line_of q) rows) ≡ true → accept_domains q c rows ≡ c)
      × (same_list c.domains (map (line_of q) rows) ≡ false
          → accept_domains q c rows ≡ publish (record c { domains = map (line_of q) rows }))
unfolding accept_domains
accept_domains_lem q c rows laws w = (
  ap (open_domains q) (set_domain_list-domains c (map (line_of q) rows))
      ∙ open_domains-lines q laws rows w,
  (set_domain_list-cases c (map (line_of q) rows)).0,
  (set_domain_list-cases c (map (line_of q) rows)).1,
)
