-- ===== src/Drivers/Keyboard/Codes.antt =====
-- kernel/include/drivers/keyboard.h: the keys and the tables from scan codes of set 2 to keys.
use quark_os.Prelude.{ℕ, List, [], ◌∷◌}

abbrev pub knull : ℕ
knull = 0

abbrev pub tab : ℕ
tab = 0x9

abbrev pub enter : ℕ
enter = 0xa

abbrev pub space : ℕ
space = 0x20

abbrev pub f1 : ℕ
f1 = 0x84

abbrev pub f2 : ℕ
f2 = 0x85

abbrev pub f3 : ℕ
f3 = 0x86

abbrev pub f4 : ℕ
f4 = 0x87

abbrev pub f5 : ℕ
f5 = 0x88

abbrev pub f6 : ℕ
f6 = 0x89

abbrev pub f7 : ℕ
f7 = 0x8a

abbrev pub f8 : ℕ
f8 = 0x8b

abbrev pub f9 : ℕ
f9 = 0x8c

abbrev pub f10 : ℕ
f10 = 0x8d

abbrev pub f11 : ℕ
f11 = 0x8e

abbrev pub f12 : ℕ
f12 = 0x8f

abbrev pub esc : ℕ
esc = 0x90

abbrev pub capslock : ℕ
capslock = 0x91

abbrev pub backspace : ℕ
backspace = 0x92

abbrev pub number_lock : ℕ
number_lock = 0x93

abbrev pub scroll_lock : ℕ
scroll_lock = 0x94

abbrev pub right_gui : ℕ
right_gui = 0x95

abbrev pub apps : ℕ
apps = 0x96

abbrev pub end : ℕ
end = 0x97

abbrev pub home : ℕ
home = 0x98

abbrev pub insert : ℕ
insert = 0x99

abbrev pub delete : ℕ
delete = 0x9a

abbrev pub cursor_left : ℕ
cursor_left = 0x9b

abbrev pub cursor_down : ℕ
cursor_down = 0x9c

abbrev pub cursor_right : ℕ
cursor_right = 0x9d

abbrev pub cursor_up : ℕ
cursor_up = 0x9e

abbrev pub page_down : ℕ
page_down = 0x9f

abbrev pub page_up : ℕ
page_up = 0xa0

abbrev pub left_alt : ℕ
left_alt = 0xa1

abbrev pub left_ctrl : ℕ
left_ctrl = 0xa2

abbrev pub left_shift : ℕ
left_shift = 0xa3

abbrev pub right_alt : ℕ
right_alt = 0xa4

abbrev pub right_ctrl : ℕ
right_ctrl = 0xa5

abbrev pub right_shift : ℕ
right_shift = 0xa6

abbrev pub left_gui : ℕ
left_gui = 0xa7

abbrev pub m_www_search : ℕ
m_www_search = 0xa8

abbrev pub m_previous_track : ℕ
m_previous_track = 0xa9

abbrev pub m_www_favorites : ℕ
m_www_favorites = 0xaa

abbrev pub m_www_refresh : ℕ
m_www_refresh = 0xab

abbrev pub m_volume_down : ℕ
m_volume_down = 0xac

abbrev pub m_mute : ℕ
m_mute = 0xad

abbrev pub m_www_stop : ℕ
m_www_stop = 0xae

abbrev pub m_calculator : ℕ
m_calculator = 0xaf

abbrev pub m_www_forward : ℕ
m_www_forward = 0xb0

abbrev pub m_volume_up : ℕ
m_volume_up = 0xb1

abbrev pub m_play_pause : ℕ
m_play_pause = 0xb2

abbrev pub m_www_back : ℕ
m_www_back = 0xb3

abbrev pub m_www_home : ℕ
m_www_home = 0xb4

abbrev pub m_stop : ℕ
m_stop = 0xb5

abbrev pub m_my_computer : ℕ
m_my_computer = 0xb6

abbrev pub m_email : ℕ
m_email = 0xb7

abbrev pub m_next_track : ℕ
m_next_track = 0xb8

abbrev pub m_media_select : ℕ
m_media_select = 0xb9

abbrev pub a_power : ℕ
a_power = 0xba

abbrev pub a_sleep : ℕ
a_sleep = 0xbb

abbrev pub a_wake : ℕ
a_wake = 0xbc

-- `asciiNonShift1`, by the scan code
unfoldable pub ascii_non_shift1 : List ℕ
ascii_non_shift1 =
    knull ∷ f9 ∷ knull ∷ f5 ∷ f3 ∷ f1 ∷ f2 ∷ f12 ∷ knull ∷ f10 ∷ f8 ∷ f6 ∷ f4 ∷ tab ∷ b'`' ∷ knull
    ∷ knull ∷ left_alt ∷ left_shift ∷ knull ∷ left_ctrl ∷ b'q' ∷ b'1' ∷ knull ∷ knull ∷ knull ∷ b'z'
    ∷ b's' ∷ b'a' ∷ b'w' ∷ b'2' ∷ knull ∷ knull ∷ b'c' ∷ b'x' ∷ b'd' ∷ b'e' ∷ b'4' ∷ b'3' ∷ knull
    ∷ knull ∷ space ∷ b'v' ∷ b'f' ∷ b't' ∷ b'r' ∷ b'5' ∷ knull ∷ knull ∷ b'n' ∷ b'b' ∷ b'h' ∷ b'g'
    ∷ b'y' ∷ b'6' ∷ knull ∷ knull ∷ knull ∷ b'm' ∷ b'j' ∷ b'u' ∷ b'7' ∷ b'8' ∷ knull ∷ knull ∷ b','
    ∷ b'k' ∷ b'i' ∷ b'o' ∷ b'0' ∷ b'9' ∷ knull ∷ knull ∷ b'.' ∷ b'/' ∷ b'l' ∷ b';' ∷ b'p' ∷ b'-'
    ∷ knull ∷ knull ∷ knull ∷ 39 ∷ knull ∷ b'[' ∷ b'=' ∷ knull ∷ knull ∷ capslock ∷ right_shift
    ∷ enter ∷ b']' ∷ knull ∷ 92 ∷ knull ∷ knull ∷ knull ∷ knull ∷ knull ∷ knull ∷ knull ∷ knull
    ∷ backspace ∷ knull ∷ knull ∷ b'1' ∷ knull ∷ b'4' ∷ b'7' ∷ knull ∷ knull ∷ knull ∷ b'0' ∷ b'.'
    ∷ b'2' ∷ b'5' ∷ b'6' ∷ b'8' ∷ esc ∷ number_lock ∷ f11 ∷ b'+' ∷ b'3' ∷ b'-' ∷ b'*' ∷ b'9'
    ∷ scroll_lock ∷ knull ∷ knull ∷ knull ∷ knull ∷ f7 ∷ []

-- `ascii2`: the codes after 0xe0
unfoldable pub ascii2 : List ℕ
ascii2 =
    knull ∷ knull ∷ knull ∷ knull ∷ knull ∷ knull ∷ knull ∷ knull ∷ knull ∷ knull ∷ knull ∷ knull
    ∷ knull ∷ knull ∷ knull ∷ knull ∷ m_www_search ∷ right_alt ∷ knull ∷ knull ∷ right_ctrl
    ∷ m_previous_track ∷ knull ∷ knull ∷ m_www_favorites ∷ knull ∷ knull ∷ knull ∷ knull ∷ knull
    ∷ knull ∷ left_gui ∷ m_www_refresh ∷ m_volume_down ∷ knull ∷ m_mute ∷ knull ∷ knull ∷ knull
    ∷ right_gui ∷ m_www_stop ∷ knull ∷ knull ∷ m_calculator ∷ knull ∷ knull ∷ knull ∷ apps
    ∷ m_www_forward ∷ knull ∷ m_volume_up ∷ knull ∷ m_play_pause ∷ knull ∷ knull ∷ a_power
    ∷ m_www_back ∷ knull ∷ m_www_home ∷ m_stop ∷ knull ∷ knull ∷ knull ∷ a_sleep ∷ m_my_computer
    ∷ knull ∷ knull ∷ knull ∷ knull ∷ knull ∷ knull ∷ knull ∷ m_email ∷ knull ∷ b'/' ∷ knull ∷ knull
    ∷ m_next_track ∷ knull ∷ knull ∷ m_media_select ∷ knull ∷ knull ∷ knull ∷ knull ∷ knull ∷ knull
    ∷ knull ∷ knull ∷ knull ∷ enter ∷ knull ∷ knull ∷ knull ∷ a_wake ∷ knull ∷ knull ∷ knull ∷ knull
    ∷ knull ∷ knull ∷ knull ∷ knull ∷ knull ∷ knull ∷ end ∷ knull ∷ cursor_left ∷ home ∷ knull
    ∷ knull ∷ knull ∷ insert ∷ delete ∷ cursor_down ∷ knull ∷ cursor_right ∷ cursor_up ∷ knull
    ∷ knull ∷ knull ∷ knull ∷ page_down ∷ knull ∷ knull ∷ knull ∷ []

-- `asciiShift1`
unfoldable pub ascii_shift1 : List ℕ
ascii_shift1 =
    knull ∷ f9 ∷ knull ∷ f5 ∷ f3 ∷ f1 ∷ f2 ∷ f12 ∷ knull ∷ f10 ∷ f8 ∷ f6 ∷ f4 ∷ tab ∷ b'`' ∷ knull
    ∷ knull ∷ left_alt ∷ left_shift ∷ knull ∷ left_ctrl ∷ b'Q' ∷ b'!' ∷ knull ∷ knull ∷ knull ∷ b'Z'
    ∷ b'S' ∷ b'A' ∷ b'W' ∷ b'@' ∷ knull ∷ knull ∷ b'C' ∷ b'X' ∷ b'D' ∷ b'E' ∷ b'$' ∷ b'#' ∷ knull
    ∷ knull ∷ space ∷ b'V' ∷ b'F' ∷ b'T' ∷ b'R' ∷ b'%' ∷ knull ∷ knull ∷ b'N' ∷ b'B' ∷ b'H' ∷ b'G'
    ∷ b'Y' ∷ b'^' ∷ knull ∷ knull ∷ knull ∷ b'M' ∷ b'J' ∷ b'U' ∷ b'&' ∷ b'*' ∷ knull ∷ knull ∷ b'<'
    ∷ b'K' ∷ b'I' ∷ b'O' ∷ b')' ∷ b'(' ∷ knull ∷ knull ∷ b'>' ∷ b'?' ∷ b'L' ∷ b':' ∷ b'P' ∷ b'_'
    ∷ knull ∷ knull ∷ knull ∷ b'"' ∷ knull ∷ b'{' ∷ b'+' ∷ knull ∷ knull ∷ capslock ∷ right_shift
    ∷ enter ∷ b'}' ∷ knull ∷ b'|' ∷ knull ∷ knull ∷ knull ∷ knull ∷ knull ∷ knull ∷ knull ∷ knull
    ∷ backspace ∷ knull ∷ knull ∷ b'1' ∷ knull ∷ b'4' ∷ b'7' ∷ knull ∷ knull ∷ knull ∷ b'0' ∷ b'.'
    ∷ b'2' ∷ b'5' ∷ b'6' ∷ b'8' ∷ esc ∷ number_lock ∷ f11 ∷ b'+' ∷ b'3' ∷ b'-' ∷ b'*' ∷ b'9'
    ∷ scroll_lock ∷ knull ∷ knull ∷ knull ∷ knull ∷ f7 ∷ []
