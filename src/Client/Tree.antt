-- ===== src/Client/Tree.antt =====
-- directory.go and transfer.go: the walk of a remote directory tree, and what is done on it. A server can
-- list a tree that never ends, so the walk descends on fuel; `none` stands for one that needs more.
pub mod Files
pub mod From
pub mod Removal
pub mod Download
use ftp.Base.{
  ℕ, zero, suc, Bool, true, false, not, ◌&&◌, ◌||◌, Option, none, some, ◌⊎◌, inl, inr, List, [],
  ◌∷◌, ◌++◌, Bytes, text, bytes_eq, is_empty, pos, contains_byte, has_prefix, drop, length,
  if◌then◌else◌,
}
use ftp.Session.State.{Ip}
use ftp.Driver.Path.{clean, join_path}
use ftp.Client.Data.{cut_last}
use ftp.Client.Listing.{Entry, EntryType, file, dir, link, unknown}
use ftp.Client.Wire.{ClientError, Wire, Conn, M, Result, ok, err}
use ftp.Client.Commands.{remove_dir, delete}
use ftp.Client.Transfers.{list, retrieve}

-- What a walk or its callback returns when it is not nil.
pub data WalkError : Type 0 where
  skip_dir not_exist outside : WalkError
  client : ClientError → WalkError
  local : Bytes → WalkError  -- of the local file system

abbrev pub is_skip : WalkError → Bool
is_skip skip_dir = true
is_skip not_exist = false
is_skip outside = false
is_skip (client x) = false
is_skip (local x) = false

abbrev pub is_dir : Entry → Bool
is_dir e = elim e.kind [ file ↦ false | dir ↦ true | link ↦ false | unknown ↦ false ]

-- `path.Dir` and `path.Base` of a path that was cleaned
unfoldable pub path_dir : Bytes → Bytes
unfolding clean
path_dir p = elim (cut_last b'/' p) [
  | none ↦ text "."
  | some (before, _) ↦ clean (before ++ text "/")
]

unfoldable pub path_base : Bytes → Bytes
path_base p = elim (cut_last b'/' p) [ none ↦ p | some (_, after) ↦ after ]

abbrev pub is_dots : Bytes → Bool
is_dots name = bytes_eq name (text ".") || bytes_eq name (text "..")

-- The entry of a directory that has no parent to be listed.
abbrev pub top_entry : Bytes → Entry
top_entry p = record { name = p; kind = dir; size = pos 0; target = []; raw = [] }

unfoldable pub find_entry : Bytes → List Entry → Option Entry
find_entry name [] = none
find_entry name (e ∷ es) =
    let rest = find_entry name es in if bytes_eq e.name name then some e else rest

abbrev pub parent_of : Bytes → Bytes
parent_of p =
    let above = path_dir p in
    if bytes_eq above (text ".") && not (contains_byte b'/' p) then [] else above

-- The state of a walk: the client's and what the callback keeps.
abbrev pub Walked : Type 0 → Type 0
Walked T = Option (T × Option WalkError)

module _ {T : Type 0} where
  -- The entries of a directory in turn, by the walk of one.
  unfoldable pub walk_each : (Bytes → Entry → T → Walked T) → Bytes → List Entry → T → Walked T
  unfolding join_path
  walk_each f p [] t = some (t, none)
  walk_each f p (e ∷ es) t =
      let go_on = walk_each f p es in
      if is_dots e.name then go_on t else (elim (f (join_path p e.name) e t) [
        | none ↦ none
        | some (u, r) ↦ elim r [
          | none ↦ go_on u
          | some x ↦ if is_skip x then go_on u else some (u, some x)
        ]
      ])

  module _ (list_at : Bytes → T → T × Result (List Entry))
      (visit : Bytes → Option Entry → Option WalkError → T → T × Option WalkError) where
    -- `walk`; its `info` is never nil.
    unfoldable pub walk : ℕ → Bytes → Entry → T → Walked T
    unfolding walk_each
    walk zero p e t = none
    walk (suc n) p e t =
        let v = visit p (some e) none t in
        elim v.1 [
          | some x ↦ some (v.0, if is_dir e && is_skip x then none else some x)
          | none ↦
              let l = list_at p v.0 in
              if not (is_dir e) then some (v.0, none) else (elim l.1 [
                | err x ↦ some (visit p (some e) (some (client x)) l.0)
                | ok es ↦ walk_each (walk n) p es l.0
              ])
        ]

    -- `Walk`
    unfoldable pub walk_from : ℕ → Bytes → T → Walked T
    unfolding walk find_entry path_dir path_base clean
    walk_from n root t =
        let p = clean root in
        if bytes_eq p (text ".") || bytes_eq p (text "/")
        then walk n p (top_entry p) t
        else (let l = list_at (parent_of p) t in
            elim l.1 [
              | err x ↦ some (visit root none (some (client x)) l.0)
              | ok es ↦ elim (find_entry (path_base p) es) [
                | none ↦ some (visit root none (some not_exist) l.0)
                | some e ↦ walk n p e l.0
              ]
            ])

-- The local file system: directories, and files that are created and then written.
pub record Local (L : Type 0) : Type 0 where
  pub mkdir_all : Bytes → L → L × Option Bytes
  pub create : Bytes → L → L × Option Bytes
  pub write : Bytes → Bytes → L → L

module _ {S : Type 0} (w : Wire S) (parse_v6 : Bytes → Option Ip) where
  -- `List`, in a walk whose callback keeps more.
  abbrev pub list_beside : {A : Type 0} → Bytes → Conn S × A → (Conn S × A) × Result (List Entry)
  list_beside path (c, a) = let r = list w parse_v6 path c in ((r.0, a), r.1)

  -- The callback of `RemoveDirRecursive`: paths, and whether they are directories, the latest first.
  abbrev pub collect :
      Bytes
      → Option Entry
      → Option WalkError
      → Conn S × List (Bytes × Bool)
      → (Conn S × List (Bytes × Bool)) × Option WalkError
  collect p info (some x) t = (t, some x)
  collect p none none t = (t, none)
  collect p (some e) none (c, found) = ((c, (p, is_dir e) ∷ found), none)

  unfoldable pub delete_found : List (Bytes × Bool) → M S (Unit {0})
  unfolding remove_dir delete
  delete_found [] c = (c, ok tt)
  delete_found ((p, d) ∷ found) c =
      let r = (if d then remove_dir w p else delete w p) c in
      elim r.1 [ err x ↦ (r.0, err x) | ok _ ↦ delete_found found r.0 ]

  -- What follows the walk.
  abbrev pub after_walk :
      Walked (Conn S × List (Bytes × Bool)) → Option (Conn S × (WalkError ⊎ Result (Unit {0})))
  after_walk none = none
  after_walk (some ((c, found), some x)) = some (c, inl x)
  after_walk (some ((c, found), none)) = let r = delete_found found c in some (r.0, inr r.1)

  -- `RemoveDirRecursive`: the error of the walk, or what the deletions come to.
  unfoldable pub remove_dir_recursive :
      ℕ → Bytes → Conn S → Option (Conn S × (WalkError ⊎ Result (Unit {0})))
  unfolding walk_from list delete_found
  remove_dir_recursive n root c = after_walk (walk_from list_beside collect n root (c, []))

  module _ {L : Type 0} (fs : Local L) where
    -- A path without a prefix and a slash after it, if it has the prefix.
    abbrev pub relative_to : Bytes → Bytes → Option Bytes
    relative_to root p =
        let rest = drop (length root) p in
        if not (has_prefix p root)
        then none
        else if has_prefix rest (text "/")
        then some (drop 1 rest)
        else some rest

    -- A file of the tree, to a local path.
    abbrev fetch : Bytes → Bytes → Conn S × L → (Conn S × L) × Option WalkError
    fetch p path (c, l) =
        let d = fs.mkdir_all (path_dir path) l in
        let f = fs.create path d.0 in
        let r = retrieve w parse_v6 p false c in
        elim d.1 [
          | some x ↦ ((c, d.0), some (local x))
          | none ↦ elim f.1 [
            | some x ↦ ((c, f.0), some (local x))
            | none ↦ elim r.1 [
              | err x ↦ ((r.0, f.0), some (client x))
              | ok content ↦ ((r.0, fs.write path content f.0), none)
            ]
          ]
        ]

    abbrev local_dir : Bytes → Conn S × L → (Conn S × L) × Option WalkError
    local_dir path (c, l) =
        let d = fs.mkdir_all path l in
        elim d.1 [ some x ↦ ((c, d.0), some (local x)) | none ↦ ((c, d.0), none) ]

    -- The callback of `DownloadDir`.
    unfoldable pub download_entry :
        Bytes
        → Bytes
        → Bytes
        → Option Entry
        → Option WalkError
        → Conn S × L
        → (Conn S × L) × Option WalkError
    unfolding retrieve path_dir join_path
    download_entry remote to p info (some x) t = (t, some x)
    download_entry remote to p none none t = (t, none)
    download_entry remote to p (some e) none t = elim (relative_to remote p) [
      | none ↦ (t, some outside)
      | some rel ↦
          if is_empty rel
          then (t, none)
          else if is_dir e
          then local_dir (join_path to rel) t
          else fetch p (join_path to rel) t
    ]

    -- `DownloadDir`
    unfoldable pub download_dir : ℕ → Bytes → Bytes → Conn S × L → Walked (Conn S × L)
    unfolding walk_from list download_entry
    download_dir n remote to (c, l) =
        let d = fs.mkdir_all to l in
        elim d.1 [
          | some x ↦ some ((c, d.0), some (local x))
          | none ↦ walk_from list_beside (download_entry remote to) n remote (c, d.0)
        ]
