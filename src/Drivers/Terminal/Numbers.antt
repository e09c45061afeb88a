-- ===== src/Drivers/Terminal/Numbers.antt =====
-- kernel/terminal.c with kernel/lib/qstring.c: the characters that printing a number puts on the screen.
