-- ===== src/Driver/Path.antt =====
-- Paths, as server/driver_fs.go cleans and resolves them: filepath.Clean and filepath.Join of Go on
-- systems whose separator is a slash, and `resolve`.
use ftp.Base.{
  Bool, true, false, not, ◌||◌, List, [], ◌∷◌, ◌++◌, Bytes, text, bytes_eq, is_empty, has_prefix,
  split, join, reverse, drop, if◌then◌else◌,
}
use ftp.Session.State.{Res, ok, fail, other}

abbrev pub slash : Bytes
slash = b'/' ∷ []

abbrev pub dot : Bytes
dot = b'.' ∷ []

abbrev pub dot_dot : Bytes
dot_dot = b'.' ∷ b'.' ∷ []

-- The elements kept so far, the last one first, after a "..".
unfoldable pub pop : Bool → List Bytes → List Bytes
pop true [] = []
pop false [] = dot_dot ∷ []
pop rooted (p ∷ ps) = if bytes_eq p dot_dot then dot_dot ∷ p ∷ ps else ps

unfoldable pub push : Bool → Bytes → List Bytes → List Bytes
unfolding pop
push rooted p kept =
    if is_empty p || bytes_eq p dot
    then kept
    else if bytes_eq p dot_dot
    then pop rooted kept
    else p ∷ kept

unfoldable pub clean_parts : Bool → List Bytes → List Bytes → List Bytes
unfolding push
clean_parts rooted kept [] = reverse kept
clean_parts rooted kept (p ∷ ps) = clean_parts rooted (push rooted p kept) ps

abbrev pub is_rooted : Bytes → Bool
is_rooted [] = false
is_rooted (c ∷ s) = has_prefix (c ∷ s) slash

-- filepath.Clean
unfoldable pub clean : Bytes → Bytes
unfolding clean_parts has_prefix split join
clean path =
    let parts = join slash (clean_parts (is_rooted path) [] (split b'/' path)) in
    if is_rooted path then slash ++ parts else if is_empty parts then dot else parts

-- filepath.Join of two elements
unfoldable pub join_path : Bytes → Bytes → Bytes
unfolding clean
join_path [] [] = []
join_path [] path = clean path
join_path (c ∷ dir) path = clean ((c ∷ dir) ++ (slash ++ path))

-- The virtual path that an argument names from a working directory.
unfoldable pub virtual : Bytes → Bytes → Bytes
unfolding join_path
virtual cwd path = if is_rooted path then path else join_path cwd path

-- A clean virtual path without its first slash.
unfoldable pub strip_slash : Bytes → Res Bytes
unfolding has_prefix
strip_slash p =
    if not (is_rooted p)
    then fail (other (text "invalid path"))
    else if is_empty (drop 1 p)
    then ok dot
    else ok (drop 1 p)

-- `resolve`: the path below the root's handle.
unfoldable pub resolve : Bytes → Bytes → Res Bytes
unfolding virtual clean strip_slash
resolve cwd path = strip_slash (clean (virtual cwd path))
