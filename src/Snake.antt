-- ===== src/Snake.antt =====
-- src/shell/snake.c: the rules of the game. An `int` is a word in two's complement. What `rand`
-- returns for the next food is an argument; drawing and the delays are left out.
pub mod Body
pub mod Rules
use hal_os.Base.{
  ℕ, zero, suc, ◌+◌, ◌-◌, ◌*◌, ◌/◌, ◌%◌, ◌^◌, ◌==◌, ltb, leb, Bool, true, false, not, ◌&&◌, ◌||◌,
  if◌then◌else◌,
}
use hal_os.Base.{u32, sub32, update, List, [], ◌∷◌, Option, none, some}
use hal_os.Screen.{Screen}

pub record Point : Type 0 where
  pub x : ℕ
  pub y : ℕ

pub record Snake : Type 0 where
  pub body : ℕ → Point
  pub length : ℕ
  pub direction : Point

-- The static variables of the file. The array `body` has 100 cells, with `length` and `direction`
-- behind it: `overrun` is set by a move that writes past the 100 cells, over these two, and from
-- there on the rest of the state stands for nothing.
pub record Game : Type 0 where
  pub snake : Snake
  pub food : Point
  pub game_over : Bool
  pub score : ℕ
  pub overrun : Bool

abbrev pub body_cells : ℕ
body_cells = 100

-- `BOARD_WIDTH` and `BOARD_HEIGHT`, with cells of 16 pixels
abbrev pub board_width : Screen → ℕ
board_width s = sub32 (s.width / 16) 4

abbrev pub board_height : Screen → ℕ
board_height s = sub32 (s.height / 16) 4

-- the word of -1
abbrev pub minus_one : ℕ
minus_one = 2 ^ 32 - 1

abbrev pub is_negative : ℕ → Bool
is_negative n = leb (2 ^ 31) n

-- `n` rounds of the loop that looks for the head in the body, from index `i` on
unfoldable pub hits_body : ℕ → ℕ → Point → (ℕ → Point) → Bool
hits_body zero i head body = false
hits_body (suc n) i head body =
    if (body i).x == head.x && (body i).y == head.y then true else hits_body n (i + 1) head body

abbrev pub hits_wall : Screen → Point → Bool
hits_wall s head =
    is_negative head.x
    || leb (board_width s) head.x
    || is_negative head.y
    || leb (board_height s) head.y

unfoldable pub snake_collision : Screen → Point → Snake → Bool
snake_collision s head snake =
    if hits_wall s head then true else hits_body (snake.length - 1) 1 head snake.body

-- the loop that moves the body
unfoldable pub move_body : ℕ → (ℕ → Point) → ℕ → Point
move_body zero body = body
move_body (suc i) body = move_body i (update body (suc i) (body i))

-- `rand() % BOARD_WIDTH` and `rand() % BOARD_HEIGHT`
abbrev pub food_at : Screen → ℕ → ℕ → Point
food_at s rand_x rand_y = record { x = rand_x % board_width s; y = rand_y % board_height s }

abbrev pub new_head : Snake → Point
new_head snake = record {
  x = u32 ((snake.body 0).x + snake.direction.x);
  y = u32 ((snake.body 0).y + snake.direction.y);
}

abbrev pub moved : Snake → Snake
moved snake = record snake { body = update (move_body snake.length snake.body) 0 (new_head snake) }

-- A move writes the cells up to `body[length]`.
abbrev pub moves_past : Game → Bool
moves_past g = g.overrun || leb body_cells g.snake.length

unfoldable pub snake_update : Screen → ℕ → ℕ → Game → Game
snake_update s rand_x rand_y g =
    if g.game_over
    then g
    else if snake_collision s (new_head g.snake) g.snake
    then record g { game_over = true }
    else if (new_head g.snake).x == g.food.x && (new_head g.snake).y == g.food.y
    then record g {
      snake = record (moved g.snake) { length = g.snake.length + 1 };
      food = food_at s rand_x rand_y;
      score = g.score + 1;
      overrun = moves_past g;
    }
    else record g { snake = moved g.snake; overrun = moves_past g }

abbrev pub turned : ℕ → ℕ → Snake → Snake
turned x y snake = record snake { direction = record { x = x; y = y } }

unfoldable pub snake_handle_input : ℕ → Snake → Snake
snake_handle_input key snake =
    if key == b'w'
    then if snake.direction.y == 0 then turned 0 minus_one snake else snake
    else if key == b's'
    then if snake.direction.y == 0 then turned 0 1 snake else snake
    else if key == b'a'
    then if snake.direction.x == 0 then turned minus_one 0 snake else snake
    else if key == b'd'
    then if snake.direction.x == 0 then turned 1 0 snake else snake
    else snake

unfoldable pub snake_init : Screen → ℕ → ℕ → Game → Game
snake_init s rand_x rand_y g = record {
  snake = record (g.snake) {
    length = 1;
    body = update g.snake.body 0 (record { x = board_width s / 2; y = board_height s / 2 });
    direction = record { x = 1; y = 0 };
  };
  food = food_at s rand_x rand_y;
  game_over = false;
  score = 0;
  overrun = g.overrun;
}

-- the game and the three counters of `snake_game`
pub record Play : Type 0 where
  pub game : Game
  pub update_counter : ℕ
  pub update_threshold : ℕ
  pub length_threshold : ℕ

-- a key, if `kbhit` finds one
abbrev pub with_key : Option ℕ → Game → Game
with_key none g = g
with_key (some key) g = record g { snake = snake_handle_input key g.snake }

-- The thresholds are words in two's complement too.
abbrev pub is_due : ℕ → ℕ → Bool
is_due threshold counter = is_negative threshold || leb threshold counter

-- the counters behind an update
abbrev pub counted : Play → Play
counted p =
    if leb p.length_threshold p.game.snake.length
    then record p {
      update_threshold = u32 (p.update_threshold + minus_one);
      length_threshold = p.length_threshold + 5;
      update_counter = p.update_counter + 1;
    }
    else record p { update_counter = p.update_counter + 1 }

-- a round of the loop of `snake_game`
unfoldable pub play_round : Screen → Option ℕ → ℕ → ℕ → Play → Play
play_round s key rand_x rand_y p =
    let g = with_key key p.game in
    counted (
      if is_due p.update_threshold p.update_counter
      then record p { game = snake_update s rand_x rand_y g; update_counter = 0 }
      else record p { game = g })

-- the state in front of the loop
unfoldable pub game_start : Screen → ℕ → ℕ → Game → Play
game_start s rand_x rand_y g = record {
  game = snake_init s rand_x rand_y g;
  update_counter = 0;
  update_threshold = 25;
  length_threshold = 5;
}

-- the loop, over the keys and the numbers that its rounds get
unfoldable pub play : Screen → List (Option ℕ × ℕ × ℕ) → Play → Play
play s [] p = p
play s ((key, rand_x, rand_y) ∷ rounds) p =
    let next = play s rounds (play_round s key rand_x rand_y p) in
    if p.game.game_over then p else next
