-- ===== src/Sigproc/Signal.antt =====
-- The signals that sigproc.h and sigproc.c name.
use symbi_os.Base.{ℕ}

abbrev pub hup : ℕ
hup = 1

abbrev pub int : ℕ
int = 2

abbrev pub quit : ℕ
quit = 3

abbrev pub kill : ℕ
kill = 9

abbrev pub usr1 : ℕ
usr1 = 10

abbrev pub usr2 : ℕ
usr2 = 12

abbrev pub pipe : ℕ
pipe = 13

abbrev pub alrm : ℕ
alrm = 14

abbrev pub term : ℕ
term = 15

abbrev pub vtalrm : ℕ
vtalrm = 26

abbrev pub io : ℕ
io = 29
