-- ===== src/Client/Tree/Download.antt =====
-- DownloadDir of transfer.go.
use ftp.Base.{
  has_prefix, ℕ, suc, Bool, true, false, ◌&&◌, Option, none, some, List, Bytes, ◌≡◌, refl, ap, ◌∙◌,
  bytes_eq, text,
}
use ftp.Session.State.{Ip}
use ftp.Driver.Path.{clean}
use ftp.Client.Tree.From.{walk_from-found}
use ftp.Client.Listing.{Entry}
use ftp.Client.Wire.{Wire, Conn, ok}
use ftp.Client.Transfers.{list}
use ftp.Client.Tree.{
  WalkError, outside, local, Local, download_dir, download_entry, is_dir, walk, list_beside,
  walk_from, find_entry, path_base, parent_of,
}

and_false : (b : Bool) → b && false ≡ false
and_false true = refl
and_false false = refl

module _ {S L : Type 0} (w : Wire S) (parse_v6 : Bytes → Option Ip) (fs : Local L) where
  abbrev visit :
      Bytes
      → Bytes
      → Bytes
      → Option Entry
      → Option WalkError
      → Conn S × L
      → (Conn S × L) × Option WalkError
  visit = download_entry w parse_v6 fs

  visit-outside :
      (root to p : Bytes) (e : Entry) (t : Conn S × L)
      → has_prefix p root ≡ false
      → visit root to p (some e) none t ≡ (t, some outside)
  unfolding download_entry
  visit-outside root to p e t h = rw (download_entry, h) refl

  walk-outside :
      (n : ℕ) (root to p : Bytes) (e : Entry) (t : Conn S × L)
      → has_prefix p root ≡ false
      → walk (list_beside w parse_v6) (visit root to) (suc n) p e t ≡ some (t, some outside)
  unfolding walk
  walk-outside n root to p e t h =
      rw (walk, visit-outside root to p e t h, and_false (is_dir e))
        (ap (λ v. some (v.0, some outside)) (visit-outside root to p e t h))

  -- `DownloadDir` of a path that is not the root, that its parent's listing shows, and that does not
  -- begin the path that Clean makes of it, as one that ends in a slash: once the local directory is
  -- there, it ends with the error of an invalid path, and nothing else was made or fetched.
  pub download_dir-outside :
      (n : ℕ) (root to : Bytes) (es : List Entry) (e : Entry) (c : Conn S) (l : L)
      → (fs.mkdir_all to l).1 ≡ none
      → bytes_eq (clean root) (text ".") ≡ false
      → bytes_eq (clean root) (text "/") ≡ false
      → (list w parse_v6 (parent_of (clean root)) c).1 ≡ ok es
      → find_entry (path_base (clean root)) es ≡ some e
      → has_prefix (clean root) root ≡ false
      → download_dir w parse_v6 fs (suc n) root to (c, l)
        ≡ some
            (((list w parse_v6 (parent_of (clean root)) c).0, (fs.mkdir_all to l).0), some outside)
  unfolding download_dir
  download_dir-outside n root to es e c l made dot slash shown found h =
      ap
        (λ r. elim r [
          | some x ↦ some ((c, (fs.mkdir_all to l).0), some (local x))
          | none ↦
              walk_from (list_beside w parse_v6) (visit root to) (suc n) root
                (c, (fs.mkdir_all to l).0)
        ])
        made
      ∙ walk_from-found (list_beside w parse_v6) (visit root to) (suc n) root es e
          (c, (fs.mkdir_all to l).0) dot slash shown found
      ∙ walk-outside n root to (clean root) e
          ((list w parse_v6 (parent_of (clean root)) c).0, (fs.mkdir_all to l).0) h
