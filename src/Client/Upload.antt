-- ===== src/Client/Upload.antt =====
-- UploadDir of transfer.go. What filepath.Walk meets on the local disk is a list, in its order.
use ftp.Base.{
  Option, none, some, ◌⊎◌, inl, inr, List, [], ◌∷◌, Bytes, text, bytes_eq, if◌then◌else◌,
}
use ftp.Session.State.{Ip}
use ftp.Driver.Path.{join_path}
use ftp.Client.Wire.{Wire, Conn, ok, err}
use ftp.Client.Commands.{make_dir}
use ftp.Client.Transfers.{Source, store}
use ftp.Client.Tree.{WalkError, client, local}

-- What is at a local path: an error of the walk, or a link, a directory, or a file, which opens or not.
pub data LocalNode : Type 0 where
  failed : Bytes → LocalNode
  symlink directory : LocalNode
  regular : Bytes ⊎ Source → LocalNode

module _ {S : Type 0} (w : Wire S) (parse_v6 : Bytes → Option Ip) where
  -- A directory, whose `MakeDir` may fail.
  abbrev make_remote : Bytes → Conn S → Conn S × Option WalkError
  make_remote path c = ((make_dir w path c).0, none)

  abbrev store_file : Bytes → Bytes ⊎ Source → Conn S → Conn S × Option WalkError
  store_file path (inl x) c = (c, some (local x))
  store_file path (inr source) c =
      let r = store w parse_v6 path source c in
      elim r.1 [ err x ↦ (r.0, some (client x)) | ok _ ↦ (r.0, none) ]

  -- The callback of `UploadDir`, at a path relative to the local directory.
  unfoldable pub upload_node : Bytes → Bytes × LocalNode → Conn S → Conn S × Option WalkError
  unfolding make_dir store join_path
  upload_node remote (rel, failed x) c = (c, some (local x))
  upload_node remote (rel, symlink) c = (c, none)
  upload_node remote (rel, directory) c =
      make_remote (if bytes_eq rel (text ".") then remote else join_path remote rel) c
  upload_node remote (rel, regular r) c =
      if bytes_eq rel (text ".")
      then make_remote remote c
      else store_file (join_path remote rel) r c

  -- `UploadDir`: the walk stops at the first error.
  unfoldable pub upload_dir : Bytes → List (Bytes × LocalNode) → Conn S → Conn S × Option WalkError
  unfolding upload_node
  upload_dir remote [] c = (c, none)
  upload_dir remote (x ∷ xs) c =
      let r = upload_node remote x c in
      elim r.1 [ some e ↦ (r.0, some e) | none ↦ upload_dir remote xs r.0 ]
