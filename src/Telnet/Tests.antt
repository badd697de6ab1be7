-- ===== src/Telnet/Tests.antt =====
-- Reads through server/telnet.go of a line that holds a cut command.
use ftp.Base.{[], ◌∷◌, ◌≡◌, refl}
use ftp.Bufio.{Reader, stream}
use ftp.Telnet.Filter.{strip, ReadsAll, read_all-ReadsAll}

-- "A", an option refused over two chunks, an escaped 255, and a lone IAC.
abbrev cut_command : Reader
cut_command = record {
  buffered = 65 ∷ 255 ∷ 254 ∷ [];
  source = (1 ∷ 255 ∷ 255 ∷ []) ∷ (66 ∷ 255 ∷ []) ∷ [];
}

read_all-ReadsAll_example : ReadsAll (1 ∷ 1 ∷ 4 ∷ 4 ∷ []) cut_command
read_all-ReadsAll_example = read_all-ReadsAll (1 ∷ 1 ∷ 4 ∷ 4 ∷ []) cut_command

plain : strip (stream cut_command) ≡ 65 ∷ 255 ∷ 66 ∷ []
plain = refl
