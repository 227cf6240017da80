-- ===== src/Keyboard/Key.antt =====
-- The key codes of include/chr_drv/keyboard.h.
use operator_system.Common.{ℕ}

abbrev pub esc : ℕ
esc = 0x01

abbrev pub tab : ℕ
tab = 0x02

abbrev pub enter : ℕ
enter = 0x03

abbrev pub backspace : ℕ
backspace = 0x04

abbrev pub gui_l : ℕ
gui_l = 0x05

abbrev pub gui_r : ℕ
gui_r = 0x06

abbrev pub apps : ℕ
apps = 0x07

abbrev pub shift_l : ℕ
shift_l = 0x08

abbrev pub shift_r : ℕ
shift_r = 0x09

abbrev pub ctrl_l : ℕ
ctrl_l = 0x0A

abbrev pub ctrl_r : ℕ
ctrl_r = 0x0B

abbrev pub alt_l : ℕ
alt_l = 0x0C

abbrev pub alt_r : ℕ
alt_r = 0x0D

abbrev pub caps_lock : ℕ
caps_lock = 0x0E

abbrev pub num_lock : ℕ
num_lock = 0x0F

abbrev pub scroll_lock : ℕ
scroll_lock = 0x10

abbrev pub f1 : ℕ
f1 = 0x11

abbrev pub f2 : ℕ
f2 = 0x12

abbrev pub f3 : ℕ
f3 = 0x13

abbrev pub f4 : ℕ
f4 = 0x14

abbrev pub f5 : ℕ
f5 = 0x15

abbrev pub f6 : ℕ
f6 = 0x16

abbrev pub f7 : ℕ
f7 = 0x17

abbrev pub f8 : ℕ
f8 = 0x18

abbrev pub f9 : ℕ
f9 = 0x19

abbrev pub f10 : ℕ
f10 = 0x1A

abbrev pub f11 : ℕ
f11 = 0x1B

abbrev pub f12 : ℕ
f12 = 0x1C

abbrev pub printscreen : ℕ
printscreen = 0x1D

abbrev pub pausebreak : ℕ
pausebreak = 0x1E

abbrev pub insert : ℕ
insert = 0x1F

abbrev pub delete : ℕ
delete = 0x20

abbrev pub home : ℕ
home = 0x21

abbrev pub end : ℕ
end = 0x22

abbrev pub pageup : ℕ
pageup = 0x23

abbrev pub pagedown : ℕ
pagedown = 0x24

abbrev pub up : ℕ
up = 0x25

abbrev pub down : ℕ
down = 0x26

abbrev pub left : ℕ
left = 0x27

abbrev pub right : ℕ
right = 0x28

abbrev pub power : ℕ
power = 0x29

abbrev pub sleep : ℕ
sleep = 0x2A

abbrev pub wake : ℕ
wake = 0x2B

abbrev pub pad_slash : ℕ
pad_slash = 0x2C

abbrev pub pad_star : ℕ
pad_star = 0x2D

abbrev pub pad_minus : ℕ
pad_minus = 0x2E

abbrev pub pad_plus : ℕ
pad_plus = 0x2F

abbrev pub pad_enter : ℕ
pad_enter = 0x30

abbrev pub pad_dot : ℕ
pad_dot = 0x31

abbrev pub pad_0 : ℕ
pad_0 = 0x32

abbrev pub pad_1 : ℕ
pad_1 = 0x33

abbrev pub pad_2 : ℕ
pad_2 = 0x34

abbrev pub pad_3 : ℕ
pad_3 = 0x35

abbrev pub pad_4 : ℕ
pad_4 = 0x36

abbrev pub pad_5 : ℕ
pad_5 = 0x37

abbrev pub pad_6 : ℕ
pad_6 = 0x38

abbrev pub pad_7 : ℕ
pad_7 = 0x39

abbrev pub pad_8 : ℕ
pad_8 = 0x3A

abbrev pub pad_9 : ℕ
pad_9 = 0x3B

abbrev pub pad_up : ℕ
pad_up = pad_8

abbrev pub pad_down : ℕ
pad_down = pad_2

abbrev pub pad_left : ℕ
pad_left = pad_4

abbrev pub pad_right : ℕ
pad_right = pad_6

abbrev pub pad_home : ℕ
pad_home = pad_7

abbrev pub pad_end : ℕ
pad_end = pad_1

abbrev pub pad_pageup : ℕ
pad_pageup = pad_9

abbrev pub pad_pagedown : ℕ
pad_pagedown = pad_3

abbrev pub pad_ins : ℕ
pad_ins = pad_0

abbrev pub pad_mid : ℕ
pad_mid = pad_5

abbrev pub pad_del : ℕ
pad_del = pad_dot
