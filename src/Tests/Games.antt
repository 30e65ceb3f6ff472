-- ===== src/Tests/Games.antt =====
-- src/shell/snake.c on a board of two cells by two.
use hal_os.Base.{ℕ, update, ◌≡◌, refl, false, arith, List, Option, some, replicate}
use hal_os.Screen.{Screen}
use hal_os.Snake.{
  Game, play, game_start, play_round, snake_update, snake_init, snake_collision, snake_handle_input,
  hits_body, move_body,
}
use hal_os.Snake.Body.{IsBoard}
use hal_os.Snake.Rules.{IsGame, play-IsGame}

abbrev tiny : Screen
tiny = record { width = 96; height = 96; pitch = 384; back = λ i. 0; front = λ i. 0 }

tiny-IsBoard : IsBoard tiny
tiny-IsBoard = record {
  wide = omega arith;
  high = omega arith;
  width_int = omega arith;
  height_int = omega arith;
}

abbrev unused : Game
unused = record {
  snake = record {
    body = λ i. record { x = 0; y = 0 };
    length = 0;
    direction = record { x = 0; y = 0 };
  };
  food = record { x = 0; y = 0 };
  game_over = false;
  score = 0;
  overrun = false;
}

-- thirty rounds, with a key in each
abbrev rounds : List (Option ℕ × ℕ × ℕ)
rounds = replicate 30 (some b'w', 7, 8)

score_runs : (play tiny rounds (game_start tiny 5 6 unused)).game.score ≡ 1
unfolding game_start play play_round snake_update snake_init snake_collision snake_handle_input
    hits_body move_body update
score_runs = refl

play-IsGame_example :
    ((play tiny rounds (game_start tiny 5 6 unused)).game.overrun ≡ false)
    × IsGame tiny (play tiny rounds (game_start tiny 5 6 unused)).game
play-IsGame_example =
    play-IsGame tiny rounds 5 6 unused tiny-IsBoard refl (omega (arith, score_runs))
