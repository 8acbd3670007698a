-- ===== src/Client/Capture/Button.antt =====
-- client/CaptureDialog.cpp: the button and the fields of the dialog, and the selection.
use native.Mathlib.Nat.{div-add-mod', mod-lt, le-div_iff_mul-le, div-mul-le_self}
use xsky.Base.{
  ℕ, ◌+◌, ◌*◌, ◌/◌, ◌%◌, ◌<◌, ◌≤◌, ◌≡◌, ◌≢◌, refl, List, [], ◌∷◌, ◌++◌, true, false, not, some,
  none, arith, Bool-cases, inl, inr, ne→==,
}
use xsky.Client.Controller.{Text, Client, empty_capture, start_capture, stop_capture}
use xsky.Client.Capture.{
  Dialog, Place, open_dialog, capture_item, on_push_clicked, close_event, on_item_clicked,
}

-- What happens while the dialog is open: clicks on the button, each with the text of the line, and
-- packets that arrive.
pub data Event : Type 0 where
  clicked : Text → Event
  arrived : List ℕ → Event

pub handle : Client × Dialog → Event → Client × Dialog
handle (c, d) (clicked line) = on_push_clicked c d line
handle (c, d) (arrived packet) = (c, capture_item d packet)

pub handle_all : Client × Dialog → List Event → Client × Dialog
handle_all s [] = s
handle_all s (e ∷ es) = handle_all (handle s e) es

abbrev IsRight : Client × Dialog → Type 0
IsRight s =
    (s.1.line_enabled ≡ not s.0.is_capture)
    × (s.1.tool_enabled ≡ not s.0.is_capture)
    × (s.1.offers_stop ≡ s.0.is_capture)

handle-IsRight : (s : Client × Dialog) (e : Event) → IsRight s → IsRight (handle s e)
unfolding handle on_push_clicked start_capture stop_capture capture_item
handle-IsRight (c, d) (arrived packet) w = w
handle-IsRight (c, d) (clicked line) w = elim (Bool-cases c.is_capture) [
  | inl on ↦ rw on (refl, refl, refl)
  | inr off ↦ rw off (refl, refl, refl)
]

handle_all-IsRight : (s : Client × Dialog) (es : List Event) → IsRight s → IsRight (handle_all s es)
unfolding handle_all
handle_all-IsRight s [] w = w
handle_all-IsRight s (e ∷ es) w = handle_all-IsRight (handle s e) es (handle-IsRight s e w)

close_event-stops : (c : Client) → (close_event c).is_capture ≡ false
unfolding close_event stop_capture
close_event-stops c = elim (Bool-cases c.is_capture) [ inl on ↦ rw on refl | inr off ↦ rw off refl ]

-- Where the dialog is opened while nothing is captured: after any clicks and packets the fields can
-- be changed, and the button offers to start, exactly while nothing is captured. Then to close the
-- window ends a capture with an empty datagram, and does nothing where there is none.
handle_all-capture :
    (c : Client) (es : List Event)
    → c.is_capture ≡ false
    → let s = handle_all (c, open_dialog) es in
      (s.1.line_enabled ≡ not s.0.is_capture)
      × (s.1.tool_enabled ≡ not s.0.is_capture)
      × (s.1.offers_stop ≡ s.0.is_capture)
      × ((close_event s.0).is_capture ≡ false)
      × (s.0.is_capture ≡ true → (close_event s.0).sent ≡ s.0.sent ++ empty_capture ∷ [])
      × (s.0.is_capture ≡ false → close_event s.0 ≡ s.0)
unfolding close_event stop_capture
handle_all-capture c es idle =
    let (a, b, d) =
      handle_all-IsRight (c, open_dialog) es
        (unfold open_dialog in
          (ground (arith, idle), ground (arith, idle), ground (arith, idle))) in
    (
      a,
      b,
      d,
      close_event-stops (handle_all (c, open_dialog) es).0,
      (λ on. rw on refl),
      (λ off. rw off refl),
    )

-- With a line width, the cursor is moved to the place of the first number of the item's range and
-- selects up to that of the second: each in the line that the width gives and in a column within it,
-- and the second line is not before the first where the range is in order. A width of 0 is a
-- division by zero.
on_item_clicked_lem :
    (beg fin w : ℕ)
    → (w ≡ 0 → on_item_clicked beg fin w ≡ none)
      × (w ≢ 0
          → (from : Place) × (to : Place) × (on_item_clicked beg fin w ≡ some (from, to))
            × (from.line * w + from.column ≡ beg)
            × (to.line * w + to.column ≡ fin)
            × (from.column < w)
            × (to.column < w)
            × (beg ≤ fin → from.line ≤ to.line))
unfolding on_item_clicked
on_item_clicked_lem beg fin w = (
  (λ z. ground (arith, z)),
  (λ ne.
      let pos : 0 < w = omega (arith, ne) in
      (
        record { line = beg / w; column = beg % w },
        record { line = fin / w; column = fin % w },
        rw (ne→== w 0 ne) refl,
        div-add-mod' beg w,
        div-add-mod' fin w,
        mod-lt beg pos,
        mod-lt fin pos,
        (λ le. (le-div_iff_mul-le pos).1 (omega (arith, div-mul-le_self beg w, le))),
      )),
)
