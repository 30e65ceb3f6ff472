-- ===== src/Console/Sync.antt =====
-- The dirty rectangle of src/drivers/console.c covers all that the screen does not show yet.
use hal_os.Base.{ℕ, zero, suc, ◌+◌, ◌-◌, ◌*◌, ◌/◌, ◌≤◌, ◌<◌, ◌==◌, Bool, true, false, ◌&&◌}
use hal_os.Base.{◌≡◌, refl, arith, sym, ◌∙◌, ap, Bool-cases, inl, inr}
use hal_os.Screen.{Screen, pixel_index, copy_words}
use hal_os.Screen.Pixels.{in_rect, IsScreen, Paints, Shows, copy_words-agree, copy_words-in_range}
use hal_os.Console.{Console, DirtyRect, mark_rect, copy_rows, flush}

abbrev pub covers : DirtyRect → ℕ → ℕ → Bool
covers d x y = d.dirty && in_rect d.x1 d.y1 d.x2 d.y2 x y

-- Outside the rectangle, the two buffers have the same pixels.
pub record InSync (d : DirtyRect) (s : Screen) : Type 0 where
  pub wide : IsScreen s
  pub same :
      (x y : ℕ)
      → x < s.width
      → y < s.height
      → covers d x y ≡ false
      → s.front (pixel_index s x y) ≡ s.back (pixel_index s x y)

pub Shows-InSync : (d : DirtyRect) (s : Screen) → IsScreen s → Shows s → InSync d s
Shows-InSync d s w shows = record { wide = w; same = λ x y lt low out. shows x y lt low }

mark_rect-covers :
    (x y width height px py : ℕ) (d : DirtyRect)
    → covers (mark_rect x y width height d) px py ≡ false
    → (covers d px py ≡ false) × (in_rect x y (x + width) (y + height) px py ≡ false)
unfolding mark_rect
mark_rect-covers x y width height px py d out = ground arith

-- what is painted, and marked
pub Paints-InSync :
    (x y width height : ℕ) (d : DirtyRect) (s t : Screen)
    → InSync d s
    → Paints x y (x + width) (y + height) s t
    → InSync (mark_rect x y width height d) t
Paints-InSync x y width height d s t h p = record {
  wide = rw (p.width, p.pitch) h.wide;
  same = λ px py lt low out.
      let (old, new) = mark_rect-covers x y width height px py d out in
      let lt' : px < s.width = rw (← p.width) lt in
      let at : pixel_index t px py ≡ pixel_index s px py = ap (λ n. py * (n / 4) + px) p.pitch in
      rw (at, p.front) (h.same px py lt' (rw (← p.height) low) old ∙ sym (p.back px py lt' new));
}

-- `copy_rows` brings pixels of the back buffer to the front, and those of its rows all.
record Copies (before after : Screen) : Type 0 where
  width : after.width ≡ before.width
  height : after.height ≡ before.height
  pitch : after.pitch ≡ before.pitch
  back : after.back ≡ before.back
  agree : (j : ℕ) → before.front j ≡ before.back j → after.front j ≡ before.back j

copy_rows-Copies : (w n x y : ℕ) (s : Screen) → Copies s (copy_rows w n x y s)
unfolding copy_rows
copy_rows-Copies w zero x y s = record {
  width = refl;
  height = refl;
  pitch = refl;
  back = refl;
  agree = λ j h. h;
}
copy_rows-Copies w (suc n) x y s =
    let row : Screen = record s { front = copy_words w (y * (s.pitch / 4) + x) s.back s.front } in
    let c = copy_rows-Copies w n x (y + 1) row in
    record {
      width = c.width;
      height = c.height;
      pitch = c.pitch;
      back = c.back;
      agree =
          λ j h. c.agree j (copy_words-agree w (y * (s.pitch / 4) + x) j s.back s.front (sym h));
    }

copy_rows-in_rect :
    (w n x y px py : ℕ) (s : Screen)
    → x ≤ px
    → px < x + w
    → y ≤ py
    → py < y + n
    → (copy_rows w n x y s).front (pixel_index s px py) ≡ s.back (pixel_index s px py)
unfolding copy_rows
copy_rows-in_rect w zero x y px py s a b c d = absurd (omega arith)
copy_rows-in_rect w (suc n) x y px py s a b c d = elim (Bool-cases (y == py)) [
  | inl here ↦
      let e : y ≡ py = ground (arith, here) in
      (copy_rows-Copies w n x (y + 1) row).agree (pixel_index s px py) (
        copy_words-in_range w (y * (s.pitch / 4) + x) (pixel_index s px py) s.back s.front
          (omega (arith, ap (λ k. k * (s.pitch / 4)) e))
          (omega (arith, ap (λ k. k * (s.pitch / 4)) e)))
  | inr below ↦ copy_rows-in_rect w n x (y + 1) px py row a b (ground (arith, below)) (omega arith)
]
  where
    row : Screen
    row = record s { front = copy_words w (y * (s.pitch / 4) + x) s.back s.front }

-- `console_flush` shows the whole back buffer, if the rectangle covers all that is not shown.
pub flush-Shows : (c : Console) → InSync c.dirty_rect c.screen → Shows (flush c).screen
unfolding flush
flush-Shows c h = elim (Bool-cases c.dirty_rect.dirty) [
  | inr clean ↦ rw clean (λ x y lt low. h.same x y lt low (rw clean refl))
  | inl dirty ↦ rw dirty (shown dirty)
]
  where
    d : DirtyRect
    d = c.dirty_rect

    k : Copies c.screen (copy_rows (d.x2 - d.x1) (d.y2 - d.y1) d.x1 d.y1 c.screen)
    k = copy_rows-Copies (d.x2 - d.x1) (d.y2 - d.y1) d.x1 d.y1 c.screen

    shown : d.dirty ≡ true → Shows (copy_rows (d.x2 - d.x1) (d.y2 - d.y1) d.x1 d.y1 c.screen)
    shown dirty x y lt low =
        let at : pixel_index (copy_rows (d.x2 - d.x1) (d.y2 - d.y1) d.x1 d.y1 c.screen) x y
            ≡ pixel_index c.screen x y =
          ap (λ n. y * (n / 4) + x) k.pitch in
        rw (at, k.back)
          (elim (Bool-cases (covers d x y)) [
            | inl in_it ↦ ground (
              arith,
              dirty,
              in_it,
              copy_rows-in_rect (d.x2 - d.x1) (d.y2 - d.y1) d.x1 d.y1 x y c.screen,
            )
            | inr out ↦
                k.agree (pixel_index c.screen x y)
                  (h.same x y (rw (← k.width) lt) (rw (← k.height) low) out)
          ])

pub flush-IsScreen : (c : Console) → IsScreen c.screen → IsScreen (flush c).screen
unfolding flush
flush-IsScreen c w =
    let d = c.dirty_rect in
    let k = copy_rows-Copies (d.x2 - d.x1) (d.y2 - d.y1) d.x1 d.y1 c.screen in
    elim (Bool-cases d.dirty) [
      | inr clean ↦ rw clean w
      | inl dirty ↦ rw dirty (rw (k.width, k.pitch) w)
    ]

pub flush-InSync :
    (c : Console) → InSync c.dirty_rect c.screen → InSync (flush c).dirty_rect (flush c).screen
unfolding flush
flush-InSync c h =
    Shows-InSync (flush c).dirty_rect (flush c).screen (flush-IsScreen c h.wide) (flush-Shows c h)
