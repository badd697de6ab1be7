-- ===== src/Client/Tree/Files.antt =====
-- A tree of files as directory.go's listings show it, and the order in which it is to be removed.
use ftp.Base.{ℕ, zero, suc, Bool, true, false, Option, List, [], ◌∷◌, ◌++◌, Bytes, ◌≡◌}
use ftp.Session.State.{Ip}
use ftp.Driver.Path.{join_path}
use ftp.Client.Listing.{Entry}
use ftp.Client.Wire.{Wire, Conn, ok}
use ftp.Client.Transfers.{list}
use ftp.Client.Tree.{is_dir, is_dots}

-- A tree of files on a server, with the entries that its listings have.
mutual
  pub data Tree : Type 0 where
    leaf : Entry → Tree
    branch : Entry → Trees → Tree

  pub data Trees : Type 0 where
    nothing : Trees
    beside : Tree → Trees → Trees

abbrev pub entry_of : Tree → Entry
entry_of (leaf e) = e
entry_of (branch e ts) = e

abbrev pub entries_of : Trees → List Entry
entries_of nothing = []
entries_of (beside t ts) = entry_of t ∷ entries_of ts

-- How far it nests, at most.
unfoldable mutual
  pub Within : ℕ → Tree → Type 0
  Within zero t = ⊥
  Within (suc n) (leaf e) = Unit
  Within (suc n) (branch e ts) = AllWithin n ts

  pub AllWithin : ℕ → Trees → Type 0
  AllWithin n nothing = Unit
  AllWithin n (beside t ts) = Within n t × AllWithin n ts

-- The reference: what is in a directory goes before it, and of two entries the later one goes first.
unfoldable mutual
  pub removal_order : Bytes → Tree → List (Bytes × Bool)
  removal_order p (leaf e) = (p, is_dir e) ∷ []
  removal_order p (branch e ts) = removal_orders p ts ++ (p, is_dir e) ∷ []

  pub removal_orders : Bytes → Trees → List (Bytes × Bool)
  removal_orders p nothing = []
  removal_orders p (beside t ts) =
      removal_orders p ts ++ removal_order (join_path p (entry_of t).name) t

module _ {S : Type 0} (w : Wire S) (parse_v6 : Bytes → Option Ip) (Good : Conn S → Type 0) where
  -- A listing of a path has these entries, in every good state, and leaves a good state.
  abbrev pub Lists : Bytes → List Entry → Type 0
  Lists p es =
      (c : Conn S) → Good c → Good (list w parse_v6 p c).0 × ((list w parse_v6 p c).1 ≡ ok es)

  -- The listings of a tree's directories are those of the tree.
  unfoldable mutual
    pub Served : Bytes → Tree → Type 0
    Served p (leaf e) = is_dir e ≡ false
    Served p (branch e ts) = (is_dir e ≡ true) × Lists p (entries_of ts) × AllServed p ts

    pub AllServed : Bytes → Trees → Type 0
    AllServed p nothing = Unit
    AllServed p (beside t ts) =
        (is_dots (entry_of t).name ≡ false)
        × Served (join_path p (entry_of t).name) t
        × AllServed p ts
