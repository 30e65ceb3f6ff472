-- ===== src/Screen.antt =====
-- src/drivers/vesa.c: the two buffers of the screen, each a word per pixel from its start on.
-- Coordinates are below 2 ^ 31 and a buffer has 32 MB at most, so that nothing wraps.
pub mod Pixels
use hal_os.Base.{
  ℕ, zero, suc, ◌+◌, ◌*◌, ◌/◌, ◌^◌, ltb, Bool, true, false, ◌&&◌, if◌then◌else◌, update,
}

-- `g_width`, `g_height`, `g_pitch` in bytes, `g_back_buffer` and `g_vbe_buffer`
pub record Screen : Type 0 where
  pub width : ℕ
  pub height : ℕ
  pub pitch : ℕ
  pub back : ℕ → ℕ
  pub front : ℕ → ℕ

unfoldable pub vbe_rgb : ℕ → ℕ → ℕ → ℕ
vbe_rgb red green blue = red * 2 ^ 16 + green * 2 ^ 8 + blue

-- the word of a pixel
abbrev pub pixel_index : Screen → ℕ → ℕ → ℕ
pixel_index s x y = y * (s.pitch / 4) + x

abbrev pub on_screen : Screen → ℕ → ℕ → Bool
on_screen s x y = ltb x s.width && ltb y s.height

unfoldable pub putpixel : ℕ → ℕ → ℕ → Screen → Screen
putpixel x y color s =
    if on_screen s x y then record s { back = update s.back (pixel_index s x y) color } else s

unfoldable pub getpixel : ℕ → ℕ → Screen → ℕ
getpixel x y s = if on_screen s x y then s.back (pixel_index s x y) else 0

-- `memcpy` of `n` words from index `i` on, from one buffer to the other
unfoldable pub copy_words : ℕ → ℕ → (ℕ → ℕ) → (ℕ → ℕ) → ℕ → ℕ
copy_words zero i src dst = dst
copy_words (suc n) i src dst = copy_words n (i + 1) src (update dst i (src i))

-- `vesa_swap_buffers`, which waits for the screen first
unfoldable pub swap_buffers : Screen → Screen
swap_buffers s = record s { front = copy_words (s.height * s.pitch / 4) 0 s.back s.front }

-- the two loops that set a rectangle of pixels, from (`x`, `y`) on
unfoldable pub fill_row : ℕ → ℕ → ℕ → ℕ → Screen → Screen
fill_row zero x y color s = s
fill_row (suc n) x y color s = fill_row n (x + 1) y color (putpixel x y color s)

unfoldable pub fill_rect : ℕ → ℕ → ℕ → ℕ → ℕ → Screen → Screen
fill_rect w zero x y color s = s
fill_rect w (suc h) x y color s = fill_rect w h x (y + 1) color (fill_row w x y color s)
