-- ===== src/Snake/Body.antt =====
-- The body of the snake of src/shell/snake.c, and how it moves.
use hal_os.Base.{
  ℕ, zero, suc, ◌+◌, ◌-◌, ◌^◌, ◌≤◌, ◌<◌, ◌==◌, false, ◌&&◌, update, update_ne, update_self,
}
use hal_os.Base.{◌≡◌, ◌≢◌, ◌⊎◌, refl, arith, sym, ◌∙◌, ap, Bool-cases, inl, inr}
use hal_os.Screen.{Screen}
use hal_os.Snake.{
  Point, Snake, board_width, board_height, minus_one, hits_body, hits_wall, snake_collision,
  move_body, new_head, moved,
}

-- a screen with room for a board
pub record IsBoard (s : Screen) : Type 0 where
  pub wide : 80 ≤ s.width
  pub high : 80 ≤ s.height
  pub width_int : s.width < 2 ^ 31
  pub height_int : s.height < 2 ^ 31

pub record OnBoard (s : Screen) (p : Point) : Type 0 where
  pub column : p.x < board_width s
  pub row : p.y < board_height s

-- one cell to the right, to the left, down or up
abbrev pub IsUnit : Point → Type 0
IsUnit d =
    ((d.y ≡ 0) × ((d.x ≡ 1) ⊎ (d.x ≡ minus_one))) ⊎ ((d.x ≡ 0) × ((d.y ≡ 1) ⊎ (d.y ≡ minus_one)))

-- Two cells share a side.
abbrev pub Adjacent : Point → Point → Type 0
Adjacent p q =
    ((p.y ≡ q.y) × ((p.x ≡ q.x + 1) ⊎ (q.x ≡ p.x + 1)))
    ⊎ ((p.x ≡ q.x) × ((p.y ≡ q.y + 1) ⊎ (q.y ≡ p.y + 1)))

-- Two cells differ in a coordinate.
abbrev pub Apart : Point → Point → Type 0
Apart p q = (p.x ≢ q.x) ⊎ (p.y ≢ q.y)

-- The cells of the body are on the board, each beside the one before it, and no two are one.
pub record IsSnake (s : Screen) (snake : Snake) : Type 0 where
  pub head : 0 < snake.length
  pub direction : IsUnit snake.direction
  pub inside : (i : ℕ) → i < snake.length → OnBoard s (snake.body i)
  pub joined : (i : ℕ) → suc i < snake.length → Adjacent (snake.body i) (snake.body (suc i))
  pub apart : (i j : ℕ) → i < j → j < snake.length → Apart (snake.body i) (snake.body j)

move_body-behind : (n k : ℕ) (body : ℕ → Point) → n < k → move_body n body k ≡ body k
unfolding move_body
move_body-behind zero k body h = refl
move_body-behind (suc i) k body h =
    move_body-behind i k (update body (suc i) (body i)) (omega arith)
    ∙ update_ne body (suc i) k (body i) (omega arith)

move_body-next : (n k : ℕ) (body : ℕ → Point) → k < n → move_body n body (suc k) ≡ body k
unfolding move_body update
move_body-next zero k body h = absurd (omega arith)
move_body-next (suc i) k body h = elim (Bool-cases (k == i)) [
  | inl last ↦
      let e : suc i ≡ suc k = ground (arith, last) in
      move_body-behind i (suc k) (update body (suc i) (body i)) (omega (arith, e))
      ∙ ap (update body (suc i) (body i)) (sym e)
      ∙ update_self body (suc i) (body i)
      ∙ ap body (omega (arith, e))
  | inr before ↦
      let lt : k < i = ground (arith, before) in
      move_body-next i k (update body (suc i) (body i)) lt
      ∙ update_ne body (suc i) k (body i) (omega (arith, lt))
]

pub hits_body-Apart :
    (n i j : ℕ) (head : Point) (body : ℕ → Point)
    → hits_body n i head body ≡ false
    → i ≤ j
    → j < i + n
    → Apart head (body j)
unfolding hits_body
hits_body-Apart zero i j head body h a b = absurd (omega arith)
hits_body-Apart (suc n) i j head body h a b =
    elim (Bool-cases ((body i).x == head.x && (body i).y == head.y)) [
      | inl hit ↦ absurd (ground (arith, h, hit))
      | inr miss ↦ elim (Bool-cases (i == j)) [
        | inl here ↦
            let e : i ≡ j = ground (arith, here) in
            let at : body i ≡ body j = ap body e in
            let ex : (body i).x ≡ (body j).x = ap (λ p. p.x) at in
            let ey : (body i).y ≡ (body j).y = ap (λ p. p.y) at in ground (arith, miss, ex, ey)
        | inr later ↦
            hits_body-Apart n (i + 1) j head body (simp (hits_body, miss) at h)
              (ground (arith, later)) (omega arith)
      ]
    ]

pub new_head-Adjacent :
    (s : Screen) (snake : Snake)
    → IsBoard s
    → IsSnake s snake
    → hits_wall s (new_head snake) ≡ false
    → OnBoard s (new_head snake) × Adjacent (new_head snake) (snake.body 0)
new_head-Adjacent s snake b v free =
    let o = v.inside 0 v.head in
    (
      ground (arith, free),
      ground (arith, free, b.wide, b.high, b.width_int, b.height_int, v.direction, o.column, o.row),
    )

moved-suc : (snake : Snake) (k : ℕ) → k < snake.length → (moved snake).body (suc k) ≡ snake.body k
moved-suc snake k h =
    update_ne (move_body snake.length snake.body) 0 (suc k) (new_head snake) (omega arith)
    ∙ move_body-next snake.length k snake.body h

moved-zero : (snake : Snake) → (moved snake).body 0 ≡ new_head snake
moved-zero snake = update_self (move_body snake.length snake.body) 0 (new_head snake)

Adjacent-Apart : (p q : Point) → Adjacent p q → Apart p q
Adjacent-Apart p q a = ground arith

-- The snake behind a move, with its length or with one cell more.
pub moved-IsSnake :
    (s : Screen) (snake : Snake) (length : ℕ)
    → IsBoard s
    → IsSnake s snake
    → snake_collision s (new_head snake) snake ≡ false
    → snake.length ≤ length
    → length ≤ suc snake.length
    → IsSnake s (record (moved snake) { length = length })
unfolding snake_collision
moved-IsSnake s snake length b v free least most = record {
  head = omega (arith, v.head);
  direction = v.direction;
  inside = inside;
  joined = joined;
  apart = apart;
}
  where
    walls : hits_wall s (new_head snake) ≡ false
    walls = ground (arith, free)

    start : OnBoard s (new_head snake) × Adjacent (new_head snake) (snake.body 0)
    start = new_head-Adjacent s snake b v walls

    new : (j : ℕ) → j < snake.length → Apart (new_head snake) (snake.body j)
    new zero h = Adjacent-Apart (new_head snake) (snake.body 0) start.1
    new (suc j) h =
        hits_body-Apart (snake.length - 1) 1 (suc j) (new_head snake) snake.body
          (simp walls at free) (omega arith) (omega arith)

    inside : (i : ℕ) → i < length → OnBoard s ((moved snake).body i)
    inside zero h = rw (moved-zero snake) start.0
    inside (suc k) h = rw (moved-suc snake k (omega arith)) (v.inside k (omega arith))

    joined : (i : ℕ) → suc i < length → Adjacent ((moved snake).body i) ((moved snake).body (suc i))
    joined zero h = rw (moved-zero snake, moved-suc snake 0 v.head) start.1
    joined (suc k) h =
        rw (moved-suc snake k (omega arith), moved-suc snake (suc k) (omega arith))
          (v.joined k (omega arith))

    apart : (i j : ℕ) → i < j → j < length → Apart ((moved snake).body i) ((moved snake).body j)
    apart i zero lt h = absurd (omega arith)
    apart zero (suc j) lt h =
        rw (moved-zero snake, moved-suc snake j (omega arith)) (new j (omega arith))
    apart (suc i) (suc j) lt h =
        rw (moved-suc snake i (omega arith), moved-suc snake j (omega arith))
          (v.apart i j (omega arith) (omega arith))
