-- ===== src/Client/Protocols.antt =====
-- client/ProtocolDialog.cpp, with the texts of client/ProtocolDialog.ui.
use xsky.Base.{
  ◌≡◌, refl, ap, ◌∙◌, List, [], ◌∷◌, ◌++◌, Bool, true, false, ◌&&◌, ◌||◌, arith, Bool-cases, inl,
  inr, if◌then◌else◌,
}
use xsky.Client.Controller.Same.{same_text-eq}
use xsky.Client.Controller.{Text, Client, same_text, set_protocol_list}

-- The check boxes.
pub record Boxes : Type 0 where
  pub dns : Bool
  pub http : Bool
  pub tcp : Bool
  pub udp : Bool
  pub icmp : Bool
  pub arp : Bool

abbrev text_dns : Text
text_dns = b'D' ∷ b'N' ∷ b'S' ∷ []

abbrev text_http : Text
text_http = b'H' ∷ b'T' ∷ b'T' ∷ b'P' ∷ []

abbrev pub text_tcp : Text
text_tcp = b'T' ∷ b'C' ∷ b'P' ∷ []

abbrev text_udp : Text
text_udp = b'U' ∷ b'D' ∷ b'P' ∷ []

abbrev text_icmp : Text
text_icmp = b'I' ∷ b'C' ∷ b'M' ∷ b'P' ∷ []

abbrev text_arp : Text
text_arp = b'A' ∷ b'R' ∷ b'P' ∷ []

-- `QStringList::contains`
pub contains : List Text → Text → Bool
contains [] t = false
contains (s ∷ ss) t = same_text s t || contains ss t

or_chain :
    (a b c d e f : Bool)
    → ((((((false || a) || b) || c) || d) || e) || f) ≡ (a || (b || (c || (d || (e || f)))))
or_chain a b c d e f = ground arith

and_over :
    (k a b c d e f : Bool)
    → (k && a || (k && b || (k && c || (k && d || (k && e || k && f)))))
      ≡ (k && (a || (b || (c || (d || (e || f))))))
and_over true a b c d e f = refl
and_over false a b c d e f = refl

-- The constructor of the dialog.
pub open_protocols : List Text → Boxes
open_protocols protocols = record {
  dns = contains protocols text_dns;
  http = contains protocols text_http;
  tcp = contains protocols text_tcp;
  udp = contains protocols text_udp;
  icmp = contains protocols text_icmp;
  arp = contains protocols text_arp;
}

-- `if( checked ) protocols.push_back( text )`
abbrev pub pushed : Bool → Text → List Text → List Text
pushed checked t protocols = if checked then protocols ++ t ∷ [] else protocols

-- The list that `on_pushButtonAccept_clicked` builds.
pub protocols_of : Boxes → List Text
protocols_of b = pushed b.arp text_arp (
    pushed b.icmp text_icmp (
      pushed b.udp text_udp
        (pushed b.tcp text_tcp (pushed b.http text_http (pushed b.dns text_dns [])))))

accept_protocols : Client → Boxes → Client
accept_protocols c boxes = set_protocol_list c (protocols_of boxes)

contains-append :
    (t s : Text) (protocols : List Text)
    → contains (protocols ++ t ∷ []) s ≡ (contains protocols s || same_text t s)
unfolding contains
contains-append t s [] = ground arith
contains-append t s (p ∷ ps) = ground (arith, contains-append t s ps)

contains-pushed :
    (checked : Bool) (t s : Text) (protocols : List Text)
    → contains (pushed checked t protocols) s ≡ (contains protocols s || (checked && same_text t s))
contains-pushed true t s protocols = contains-append t s protocols
contains-pushed false t s protocols = ground arith

-- A text among those of the boxes, each with a condition.
abbrev pub chosen : Boxes → Text → Bool
chosen b t =
    b.dns && same_text text_dns t
    || (b.http && same_text text_http t
        || (b.tcp && same_text text_tcp t
            || (b.udp && same_text text_udp t
                || (b.icmp && same_text text_icmp t || b.arp && same_text text_arp t))))

contains-protocols_of : (b : Boxes) (t : Text) → contains (protocols_of b) t ≡ chosen b t
unfolding protocols_of
contains-protocols_of b t =
    let l1 = pushed b.dns text_dns [] in
    let l2 = pushed b.http text_http l1 in
    let l3 = pushed b.tcp text_tcp l2 in
    let l4 = pushed b.udp text_udp l3 in
    let l5 = pushed b.icmp text_icmp l4 in
    let nothing : contains [] t ≡ false = unfold contains in refl in
    rw
      (
        contains-pushed b.arp text_arp t l5,
        contains-pushed b.icmp text_icmp t l4,
        contains-pushed b.udp text_udp t l3,
        contains-pushed b.tcp text_tcp t l2,
        contains-pushed b.http text_http t l1,
        contains-pushed b.dns text_dns t [],
        nothing,
      )
      (or_chain (b.dns && same_text text_dns t) (b.http && same_text text_http t)
        (b.tcp && same_text text_tcp t) (b.udp && same_text text_udp t)
        (b.icmp && same_text text_icmp t) (b.arp && same_text text_arp t))

-- The condition on a box in the dialog is that its text is in the list.
box_lem :
    (protocols : List Text) (name t : Text)
    → (contains protocols name && same_text name t) ≡ (contains protocols t && same_text name t)
box_lem protocols name t = elim (Bool-cases (same_text name t)) [
  | inl same ↦
      ap (λ (s : Text). contains protocols s && same_text name t) (same_text-eq name t same)
  | inr other ↦ ground (arith, other)
]

-- A text is in the list that is set exactly where it is the text of a box that is checked; so the
-- dialog that is opened with that list checks the same boxes. Accepting a dialog that was opened
-- with any list keeps of that list the six known protocols, and no others.
protocols_lem :
    (boxes : Boxes) (protocols : List Text)
    → ((t : Text) → contains (protocols_of boxes) t ≡ chosen boxes t)
      × (open_protocols (protocols_of boxes) ≡ boxes)
      × ((t : Text)
          → contains (protocols_of (open_protocols protocols)) t ≡ (
              contains protocols t
              && chosen
                  (record {
                    dns = true;
                    http = true;
                    tcp = true;
                    udp = true;
                    icmp = true;
                    arp = true;
                  })
                  t))
unfolding open_protocols same_text
protocols_lem boxes protocols = (
  contains-protocols_of boxes,
  rw
      (
        contains-protocols_of boxes text_dns ∙ dns,
        contains-protocols_of boxes text_http ∙ http,
        contains-protocols_of boxes text_tcp ∙ tcp,
        contains-protocols_of boxes text_udp ∙ udp,
        contains-protocols_of boxes text_icmp ∙ icmp,
        contains-protocols_of boxes text_arp ∙ arp,
      )
      refl,
  λ t.
      contains-protocols_of (open_protocols protocols) t
      ∙ rw
          (
            box_lem protocols text_dns t,
            box_lem protocols text_http t,
            box_lem protocols text_tcp t,
            box_lem protocols text_udp t,
            box_lem protocols text_icmp t,
            box_lem protocols text_arp t,
          )
          (and_over (contains protocols t) (same_text text_dns t) (same_text text_http t)
            (same_text text_tcp t) (same_text text_udp t) (same_text text_icmp t)
            (same_text text_arp t)),
)
  where
    dns : chosen boxes text_dns ≡ boxes.dns
    dns = ground arith

    http : chosen boxes text_http ≡ boxes.http
    http = ground arith

    tcp : chosen boxes text_tcp ≡ boxes.tcp
    tcp = ground arith

    udp : chosen boxes text_udp ≡ boxes.udp
    udp = ground arith

    icmp : chosen boxes text_icmp ≡ boxes.icmp
    icmp = ground arith

    arp : chosen boxes text_arp ≡ boxes.arp
    arp = ground arith
