-- ===== src/Shell/Terminal.antt =====
-- The two ways on which the stdout of p2/c/mysh.c leaves the terminal for good.
use bacon_eggs.Shell.Files.{Shell}
