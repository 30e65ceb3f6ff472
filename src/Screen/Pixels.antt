-- ===== src/Screen/Pixels.antt =====
-- The pixels that the drawing functions of src/drivers/vesa.c touch, and what copying shows.
use native.Mathlib.Nat.{mul-le-mul_right}
use hal_os.Base.{
  ℕ, zero, suc, ◌+◌, ◌*◌, ◌/◌, ◌≤◌, ◌<◌, ◌==◌, ltb, leb, Bool, true, false, ◌&&◌, update, update_ne,
  update_self,
}
use hal_os.Base.{◌≡◌, refl, arith, sym, ◌∙◌, ap, Bool-cases, inl, inr}
use hal_os.Screen.{
  Screen, pixel_index, on_screen, putpixel, copy_words, swap_buffers, fill_row, fill_rect,
}

abbrev pub in_rect : ℕ → ℕ → ℕ → ℕ → ℕ → ℕ → Bool
in_rect x1 y1 x2 y2 x y = (leb x1 x && ltb x x2) && (leb y1 y && ltb y y2)

-- The words of a line are at least as many as its pixels.
abbrev pub IsScreen : Screen → Type 0
IsScreen s = s.width ≤ s.pitch / 4

pub line-le : (p y y' : ℕ) → y < y' → y * p + p ≤ y' * p
line-le p y y' h = omega (arith, mul-le-mul_right p h)

-- Two pixels of lines of `p` words have one word only if they are one pixel.
pub index-inj : (p x y x' y' : ℕ) → x < p → x' < p → y * p + x ≡ y' * p + x' → (x ≡ x') × (y ≡ y')
index-inj p x y x' y' h h' e = elim (Bool-cases (ltb y y')) [
  | inl low ↦ absurd (ground (arith, low, line-le p y y'))
  | inr high ↦ elim (Bool-cases (ltb y' y)) [
    | inl above ↦ absurd (ground (arith, above, line-le p y' y))
    | inr same ↦
        (let q : y ≡ y' = ground (arith, high, same) in (omega (arith, ap (λ k. k * p) q), q))
  ]
]

-- `after` differs from `before` in pixels of the rectangle alone.
pub record Paints (x1 y1 x2 y2 : ℕ) (before after : Screen) : Type 0 where
  pub width : after.width ≡ before.width
  pub height : after.height ≡ before.height
  pub pitch : after.pitch ≡ before.pitch
  pub front : after.front ≡ before.front
  pub back :
      (x y : ℕ)
      → x < before.width
      → in_rect x1 y1 x2 y2 x y ≡ false
      → after.back (pixel_index before x y) ≡ before.back (pixel_index before x y)

pub Paints-refl : (x1 y1 x2 y2 : ℕ) (s : Screen) → Paints x1 y1 x2 y2 s s
Paints-refl x1 y1 x2 y2 s = record {
  width = refl;
  height = refl;
  pitch = refl;
  front = refl;
  back = λ x y lt out. refl;
}

pub Paints-trans :
    {x1 y1 x2 y2 : ℕ} {a b c : Screen}
    → Paints x1 y1 x2 y2 a b
    → Paints x1 y1 x2 y2 b c
    → Paints x1 y1 x2 y2 a c
Paints-trans {a} {b} p q = record {
  width = q.width ∙ p.width;
  height = q.height ∙ p.height;
  pitch = q.pitch ∙ p.pitch;
  front = q.front ∙ p.front;
  back = λ x y lt out.
      let same : pixel_index b x y ≡ pixel_index a x y = ap (λ n. y * (n / 4) + x) p.pitch in
      let more : x < b.width = rw p.width lt in
      rw (← same) (q.back x y more out) ∙ p.back x y lt out;
}

module _ (x1 y1 x2 y2 : ℕ) where
  pub putpixel-Paints :
      (x y color : ℕ) (s : Screen)
      → IsScreen s
      → in_rect x1 y1 x2 y2 x y ≡ true
      → Paints x1 y1 x2 y2 s (putpixel x y color s)
  unfolding putpixel
  putpixel-Paints x y color s w inside = elim (Bool-cases (on_screen s x y)) [
    | inr off ↦ rw off (Paints-refl x1 y1 x2 y2 s)
    | inl on ↦ rw on (record {
      width = refl;
      height = refl;
      pitch = refl;
      front = refl;
      back = λ x' y' lt out. ground (
        arith,
        on,
        inside,
        out,
        update_ne s.back (pixel_index s x y) (pixel_index s x' y') color,
        index-inj (s.pitch / 4) x y x' y',
      );
    })
  ]

  pub Paints-IsScreen : {s t : Screen} → Paints x1 y1 x2 y2 s t → IsScreen s → IsScreen t
  Paints-IsScreen p w = rw (p.width, p.pitch) w

  fill_row-Paints :
      (n x y color : ℕ) (s : Screen)
      → IsScreen s
      → x1 ≤ x
      → x + n ≤ x2
      → y1 ≤ y
      → y < y2
      → Paints x1 y1 x2 y2 s (fill_row n x y color s)
  unfolding fill_row
  fill_row-Paints zero x y color s w a b c d = Paints-refl x1 y1 x2 y2 s
  fill_row-Paints (suc n) x y color s w a b c d =
      let p = putpixel-Paints x y color s w (ground arith) in
      Paints-trans p (
        fill_row-Paints n (x + 1) y color (putpixel x y color s) (Paints-IsScreen p w) (omega arith)
          (omega arith) c d)

  pub fill_rect-Paints :
      (width n x y color : ℕ) (s : Screen)
      → IsScreen s
      → x1 ≤ x
      → x + width ≤ x2
      → y1 ≤ y
      → y + n ≤ y2
      → Paints x1 y1 x2 y2 s (fill_rect width n x y color s)
  unfolding fill_rect
  fill_rect-Paints width zero x y color s w a b c d = Paints-refl x1 y1 x2 y2 s
  fill_rect-Paints width (suc n) x y color s w a b c d =
      let p = fill_row-Paints width x y color s w a b c (omega arith) in
      Paints-trans p (
        fill_rect-Paints width n x (y + 1) color (fill_row width x y color s) (Paints-IsScreen p w)
          a b (omega arith) (omega arith))

-- Words that agree still agree behind a copy, and words in the range of the copy agree.
pub copy_words-agree :
    (n i j : ℕ) (src dst : ℕ → ℕ) → src j ≡ dst j → copy_words n i src dst j ≡ src j
unfolding copy_words
copy_words-agree zero i j src dst h = sym h
copy_words-agree (suc n) i j src dst h =
    copy_words-agree n (i + 1) j src (update dst i (src i)) (elim (Bool-cases (i == j)) [
      | inl same ↦ ground (arith, same, update_self dst i (src i))
      | inr other ↦ h ∙ sym (update_ne dst i j (src i) (ground (arith, other)))
    ])

pub copy_words-in_range :
    (n i j : ℕ) (src dst : ℕ → ℕ) → i ≤ j → j < i + n → copy_words n i src dst j ≡ src j
unfolding copy_words
copy_words-in_range zero i j src dst a b = absurd (omega arith)
copy_words-in_range (suc n) i j src dst a b = elim (Bool-cases (i == j)) [
  | inl same ↦
      let e : i ≡ j = ground (arith, same) in
      copy_words-agree n (i + 1) j src (update dst i (src i))
        (ap src (sym e) ∙ sym (update_self dst i (src i)) ∙ ap (update dst i (src i)) e)
  | inr other ↦
      copy_words-in_range n (i + 1) j src (update dst i (src i)) (ground (arith, other))
        (omega arith)
]

-- Each pixel of the front buffer is the one of the back buffer.
abbrev pub Shows : Screen → Type 0
Shows s =
    (x y : ℕ)
    → x < s.width
    → y < s.height
    → s.front (pixel_index s x y) ≡ s.back (pixel_index s x y)

lines-le : (h p : ℕ) → 4 * (h * (p / 4)) ≤ h * p
lines-le h p = let e : p / 4 * 4 ≤ p = omega arith in grind (arith, mul-le-mul_right h e)

-- `vesa_swap_buffers` shows the whole back buffer.
pub swap_buffers-Shows : (s : Screen) → IsScreen s → Shows (swap_buffers s)
unfolding swap_buffers
swap_buffers-Shows s w x y lt low =
    copy_words-in_range (s.height * s.pitch / 4) 0 (pixel_index s x y) s.back s.front (omega arith)
      (omega (arith, line-le (s.pitch / 4) y s.height low, lines-le s.height s.pitch))
