-- ===== src/Console/Tests.antt =====
-- The console at its first and at its last place.
use operator_system.Common.{◌+◌, ◌*◌, ◌≡◌, refl, [], ◌++◌, replicate, arith}
use operator_system.Console.{
  Console, lf, scroll_up, print_char, wrap_line, put_char, action_of, perform, init_console,
  at_boot,
}
use operator_system.Console.Screen.{feed, screen}
use operator_system.Console.Bounds.{IsSafe, put_char-IsSafe}

abbrev start : Console
start = init_console at_boot

start-IsSafe : IsSafe start
unfolding init_console
start-IsSafe = omega arith

put_char-IsSafe_example : IsSafe (put_char 127 65 start)
put_char-IsSafe_example = put_char-IsSafe 127 65 start-IsSafe

-- scrolled down as far as it goes, the cursor in column 70 of the foot row
abbrev scrolled : Console
scrolled = record {
  origin = 0xB8000 + 180 * 160;
  scr_end = 0xB8000 + 180 * 160 + 4000;
  x = 70;
  y = 204;
  pos = 0xB8000 + 160 * 204 + 140;
  top = 0;
  bottom = 25;
  attr = 0x0F00;
  stores = [];
  crtc = [];
}

-- 200 line feeds and 70 spaces reach it.
scrolled_reached :
    screen (record (feed 127 (replicate 200 10 ++ replicate 70 32) start) { stores = [] })
    ≡ screen scrolled
unfolding init_console feed put_char action_of perform lf scroll_up print_char wrap_line
scrolled_reached = refl
