-- ===== src/Snake/Rules.antt =====
-- What holds in every round of the game of src/shell/snake.c.
use hal_os.Base.{ℕ, ◌+◌, ◌/◌, ◌==◌, ◌<◌, ◌≤◌, true, false, ◌&&◌, if◌then◌else◌, update, update_self}
use hal_os.Base.{◌≡◌, refl, arith, ◌∙◌, ap, Bool-cases, inl, inr, List, [], ◌∷◌, Option, none, some}
use native.Mathlib.Nat.{mod-lt}
use hal_os.Screen.{Screen}
use hal_os.Snake.{
  Point, Snake, Game, Play, board_width, board_height, snake_collision, new_head, food_at,
  snake_update, snake_handle_input, snake_init, with_key, moves_past, play_round, game_start, play,
  is_due,
}
use hal_os.Snake.Body.{IsBoard, OnBoard, IsUnit, IsSnake, moved-IsSnake}

-- The snake has a cell more than the score, the food is on the board, and only from a score of 99 on
-- has a move left the array.
pub record IsGame (s : Screen) (g : Game) : Type 0 where
  pub snake : IsSnake s g.snake
  pub food : OnBoard s g.food
  pub scored : g.snake.length ≡ g.score + 1
  pub within : g.overrun ≡ true → 99 ≤ g.score

food_at-OnBoard : (s : Screen) (rand_x rand_y : ℕ) → IsBoard s → OnBoard s (food_at s rand_x rand_y)
food_at-OnBoard s rand_x rand_y b = record {
  column = mod-lt rand_x (omega (arith, b.wide, b.width_int));
  row = mod-lt rand_y (omega (arith, b.high, b.height_int));
}

past-le : (s : Screen) (g : Game) → IsGame s g → moves_past g ≡ true → 99 ≤ g.score
past-le s g v o = ground (arith, v.within, v.scored)

snake_update-IsGame :
    (s : Screen) (rand_x rand_y : ℕ) (g : Game)
    → IsBoard s
    → IsGame s g
    → IsGame s (snake_update s rand_x rand_y g)
unfolding snake_update
snake_update-IsGame s rand_x rand_y g b v = elim (Bool-cases g.game_over) [
  | inl over ↦ simp over v
  | inr going ↦ elim (Bool-cases (snake_collision s (new_head g.snake) g.snake)) [
    | inl hit ↦
        rw (going, hit)
          (record { snake = v.snake; food = v.food; scored = v.scored; within = v.within })
    | inr free ↦
        elim (Bool-cases ((new_head g.snake).x == g.food.x && (new_head g.snake).y == g.food.y)) [
          | inl eats ↦
              rw (going, free, eats)
                (record {
                  snake =
                      moved-IsSnake s g.snake (g.snake.length + 1) b v.snake free (omega arith)
                        (omega arith);
                  food = food_at-OnBoard s rand_x rand_y b;
                  scored = ap (λ n. n + 1) v.scored;
                  within = λ o. omega (arith, past-le s g v o);
                })
          | inr hungry ↦
              rw (going, free, hungry)
                (record {
                  snake =
                      moved-IsSnake s g.snake g.snake.length b v.snake free (omega arith)
                        (omega arith);
                  food = v.food;
                  scored = v.scored;
                  within = past-le s g v;
                })
        ]
  ]
]

turned-IsSnake :
    (s : Screen) (snake : Snake) (d : Point)
    → IsSnake s snake
    → IsUnit d
    → IsSnake s (record snake { direction = d })
turned-IsSnake s snake d v u = record {
  head = v.head;
  direction = u;
  inside = v.inside;
  joined = v.joined;
  apart = v.apart;
}

handle_input-fields :
    (key : ℕ) (snake : Snake)
    → IsUnit snake.direction
    → ((snake_handle_input key snake).body ≡ snake.body)
      × ((snake_handle_input key snake).length ≡ snake.length)
      × IsUnit (snake_handle_input key snake).direction
unfolding snake_handle_input
handle_input-fields key snake u = ground (arith, u)

with_key-IsGame : (s : Screen) (key : Option ℕ) (g : Game) → IsGame s g → IsGame s (with_key key g)
with_key-IsGame s none g v = v
with_key-IsGame s (some key) g v =
    let (body, length, direction) = handle_input-fields key g.snake v.snake.direction in
    record {
      snake =
          rw (body, length)
            (turned-IsSnake s g.snake (snake_handle_input key g.snake).direction v.snake direction);
      food = v.food;
      scored = length ∙ v.scored;
      within = v.within;
    }

play_round-game :
    (s : Screen) (key : Option ℕ) (rand_x rand_y : ℕ) (p : Play)
    → (play_round s key rand_x rand_y p).game ≡ (
        if is_due p.update_threshold p.update_counter
        then snake_update s rand_x rand_y (with_key key p.game)
        else with_key key p.game)
unfolding play_round
play_round-game s key rand_x rand_y p = ground arith

play_round-IsGame :
    (s : Screen) (key : Option ℕ) (rand_x rand_y : ℕ) (p : Play)
    → IsBoard s
    → IsGame s p.game
    → IsGame s (play_round s key rand_x rand_y p).game
play_round-IsGame s key rand_x rand_y p b v =
    let w = with_key-IsGame s key p.game v in
    rw (play_round-game s key rand_x rand_y p)
      (elim (Bool-cases (is_due p.update_threshold p.update_counter)) [
        | inl due ↦ rw due (snake_update-IsGame s rand_x rand_y (with_key key p.game) b w)
        | inr not_yet ↦ rw not_yet w
      ])

snake_init-IsGame :
    (s : Screen) (rand_x rand_y : ℕ) (g : Game)
    → IsBoard s
    → g.overrun ≡ false
    → IsGame s (snake_init s rand_x rand_y g)
unfolding snake_init
snake_init-IsGame s rand_x rand_y g b clean = record {
  snake = record {
    head = omega arith;
    direction = inl (refl, inl refl);
    inside = λ i h.
        let at : update g.snake.body 0 centre i ≡ centre =
          ap (update g.snake.body 0 centre) (omega arith) ∙ update_self g.snake.body 0 centre in
        rw at (record {
          column = omega (arith, b.wide, b.width_int);
          row = omega (arith, b.high, b.height_int);
        });
    joined = λ i h. absurd (omega arith);
    apart = λ i j lt h. absurd (omega arith);
  };
  food = food_at-OnBoard s rand_x rand_y b;
  scored = refl;
  within = λ o. absurd (cc);
}
  where
    centre : Point
    centre = record { x = board_width s / 2; y = board_height s / 2 }

rounds-IsGame :
    (s : Screen) (rounds : List (Option ℕ × ℕ × ℕ)) (p : Play)
    → IsBoard s
    → IsGame s p.game
    → IsGame s (play s rounds p).game
unfolding play
rounds-IsGame s [] p b v = v
rounds-IsGame s ((key, rand_x, rand_y) ∷ rounds) p b v = elim (Bool-cases p.game.game_over) [
  | inl over ↦ simp over v
  | inr going ↦ simp going (
      rounds-IsGame s rounds (play_round s key rand_x rand_y p) b
        (play_round-IsGame s key rand_x rand_y p b v))
]

within_array : (g : Game) → (g.overrun ≡ true → 99 ≤ g.score) → g.score < 99 → g.overrun ≡ false
within_array g within small = ground (arith, within)

-- On a screen with room for a board, in a game that is started before the array of the cells was
-- left, whatever keys are typed and wherever the food is put, in every round up to a score of 98: no
-- move has written past the 100 cells, all cells of the snake and the food are on the board, no two
-- cells of the snake are one, each is beside the one in front of it, and the snake has a cell more
-- than the score.
pub play-IsGame :
    (s : Screen) (rounds : List (Option ℕ × ℕ × ℕ)) (rand_x rand_y : ℕ) (g : Game)
    → IsBoard s
    → g.overrun ≡ false
    → (play s rounds (game_start s rand_x rand_y g)).game.score < 99
    → ((play s rounds (game_start s rand_x rand_y g)).game.overrun ≡ false)
      × IsGame s (play s rounds (game_start s rand_x rand_y g)).game
unfolding game_start
play-IsGame s rounds rand_x rand_y g b clean small =
    let start = snake_init-IsGame s rand_x rand_y g b clean in
    let v = rounds-IsGame s rounds (game_start s rand_x rand_y g) b start in
    (within_array (play s rounds (game_start s rand_x rand_y g)).game v.within small, v)
