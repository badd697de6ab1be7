-- ===== src/Client/Tree/Removal.antt =====
-- The order in which directory.go's RemoveDirRecursive removes a tree of files.
use ftp.Base.{
  ℕ, zero, suc, Bool, true, false, not, Option, none, some, List, [], ◌∷◌, ◌++◌, Bytes, ◌≡◌, refl,
  ap, sym, ◌∙◌, append_assoc, append-nil, bytes_eq, text, inr, if◌then◌else◌,
}
use ftp.Session.State.{Ip}
use ftp.Driver.Path.{clean, join_path}
use ftp.Client.Listing.{Entry}
use ftp.Client.Wire.{ClientError, Wire, Conn, Result, ok, err}
use ftp.Client.Commands.{remove_dir, delete}
use ftp.Client.Transfers.{list}
use ftp.Client.Tree.{
  client, is_skip, is_dir, is_dots, Walked, walk, walk_each, list_beside, collect, delete_found,
  find_entry, path_base, parent_of, after_walk, remove_dir_recursive,
}
use ftp.Client.Tree.Files.{
  Tree, Trees, leaf, branch, nothing, beside, entry_of, entries_of, Within, AllWithin,
  removal_order, removal_orders, Lists, Served, AllServed,
}
use ftp.Client.Tree.From.{walk_from-found}

module _ {S : Type 0} (w : Wire S) (parse_v6 : Bytes → Option Ip) (Good : Conn S → Type 0) where
  -- A walk that ended well in a good state, and what it found.
  abbrev Found : Walked (Conn S × List (Bytes × Bool)) → List (Bytes × Bool) → Type 0
  Found r found = (d : Conn S) × Good d × (r ≡ some ((d, found), none))

  -- The walk at a directory, by what its listing gives.
  abbrev at_listing :
      ℕ
      → Bytes
      → Entry
      → Conn S × List (Bytes × Bool)
      → Result (List Entry)
      → Walked (Conn S × List (Bytes × Bool))
  at_listing m p e t (err x) = some (collect w parse_v6 p (some e) (some (client x)) t)
  at_listing m p e t (ok es) =
      walk_each (walk (list_beside w parse_v6) (collect w parse_v6) m) p es t

  walk_leaf :
      (m : ℕ) (p : Bytes) (e : Entry) (c : Conn S) (found : List (Bytes × Bool))
      → is_dir e ≡ false
      → walk (list_beside w parse_v6) (collect w parse_v6) (suc m) p e (c, found)
        ≡ some ((c, (p, is_dir e) ∷ found), none)
  unfolding walk
  walk_leaf m p e c found h =
      ap
        (λ b.
          if not b
          then some ((c, (p, is_dir e) ∷ found), none)
          else at_listing m p e ((list w parse_v6 p c).0, (p, is_dir e) ∷ found)
              (list w parse_v6 p c).1)
        h

  walk_branch :
      (m : ℕ) (p : Bytes) (e : Entry) (es : List Entry) (c : Conn S) (found : List (Bytes × Bool))
      → is_dir e ≡ true
      → (list w parse_v6 p c).1 ≡ ok es
      → walk (list_beside w parse_v6) (collect w parse_v6) (suc m) p e (c, found)
        ≡ walk_each
            (walk (list_beside w parse_v6) (collect w parse_v6) m)
            p
            es
            ((list w parse_v6 p c).0, (p, is_dir e) ∷ found)
  unfolding walk
  walk_branch m p e es c found h l =
      ap
        (λ b.
          if not b
          then some ((c, (p, is_dir e) ∷ found), none)
          else at_listing m p e ((list w parse_v6 p c).0, (p, is_dir e) ∷ found)
              (list w parse_v6 p c).1)
        h
      ∙ ap (at_listing m p e ((list w parse_v6 p c).0, (p, is_dir e) ∷ found)) l

  -- An entry of a directory, whose own walk ends well, and then the others.
  walk_each_next :
      (f : Bytes → Entry → Conn S × List (Bytes × Bool) → Walked (Conn S × List (Bytes × Bool)))
      → (p : Bytes) (e : Entry) (es : List Entry) (t u : Conn S × List (Bytes × Bool))
      → is_dots e.name ≡ false
      → f (join_path p e.name) e t ≡ some (u, none)
      → walk_each f p (e ∷ es) t ≡ walk_each f p es u
  unfolding walk_each
  walk_each_next f p e es t u n h =
      ap (λ b. if b then walk_each f p es t else and_then (f (join_path p e.name) e t)) n
      ∙ ap and_then h
    where
      and_then : Walked (Conn S × List (Bytes × Bool)) → Walked (Conn S × List (Bytes × Bool))
      and_then r = elim r [
        | none ↦ none
        | some (u, q) ↦ elim q [
          | none ↦ walk_each f p es u
          | some x ↦ if is_skip x then walk_each f p es u else some (u, some x)
        ]
      ]

  mutual
    unfolding Within Served removal_order walk_each

    walk-Found :
        (t : Tree) (n : ℕ) (p : Bytes)
        → Within n t
        → Served w parse_v6 Good p t
        → (c : Conn S) → Good c
        → (found : List (Bytes × Bool))
        → Found
            (walk (list_beside w parse_v6) (collect w parse_v6) n p (entry_of t) (c, found))
            (removal_order p t ++ found)
    walk-Found (leaf e) zero p i s c g found = absurd i
    walk-Found (leaf e) (suc n) p i s c g found = (c, g, walk_leaf n p e c found s)
    walk-Found (branch e ts) zero p i s c g found = absurd i
    walk-Found (branch e ts) (suc n) p i s c g found =
        let l = s.1 c g in
        let (d, good, same) =
          walk_each-Found ts n p i s.2 (list w parse_v6 p c).0 l.0 ((p, is_dir e) ∷ found) in
        (
          d,
          good,
          walk_branch n p e (entries_of ts) c found s.0 l.1
              ∙ same
              ∙ ap (λ xs. some ((d, xs), none))
                  (sym (append_assoc (removal_orders p ts) ((p, is_dir e) ∷ []) found)),
        )

    walk_each-Found :
        (ts : Trees) (n : ℕ) (p : Bytes)
        → AllWithin n ts
        → AllServed w parse_v6 Good p ts
        → (c : Conn S) → Good c
        → (found : List (Bytes × Bool))
        → Found
            (walk_each
              (walk (list_beside w parse_v6) (collect w parse_v6) n)
              p
              (entries_of ts)
              (c, found))
            (removal_orders p ts ++ found)
    walk_each-Found nothing n p i s c g found = (c, g, refl)
    walk_each-Found (beside t ts) n p i s c g found =
        let (d, good, same) = walk-Found t n (join_path p (entry_of t).name) i.0 s.1 c g found in
        let others = removal_order (join_path p (entry_of t).name) t in
        let (d', good', same') = walk_each-Found ts n p i.1 s.2 d good (others ++ found) in
        (
          d',
          good',
          walk_each_next (walk (list_beside w parse_v6) (collect w parse_v6) n) p (entry_of t)
                (entries_of ts) (c, found) (d, others ++ found) s.0 same
              ∙ same'
              ∙ ap (λ xs. some ((d', xs), none))
                  (sym (append_assoc (removal_orders p ts) others found)),
        )

  -- Calls of `RemoveDir` for directories and of `Delete` for files, in turn up to the first that fails:
  -- from a connection, to a connection and the result.
  pub data Deletes : List (Bytes × Bool) → Conn S → Conn S → Result (Unit {0}) → Type 0 where
    finished : (c : Conn S) → Deletes [] c c (ok tt)
    dir_removed :
        (p : Bytes) (rest : List (Bytes × Bool)) (c b d : Conn S) (r : Result (Unit {0}))
        → remove_dir w p c ≡ (b, ok tt)
        → Deletes rest b d r
        → Deletes ((p, true) ∷ rest) c d r
    dir_failed :
        (p : Bytes) (rest : List (Bytes × Bool)) (c d : Conn S) (x : ClientError)
        → remove_dir w p c ≡ (d, err x)
        → Deletes ((p, true) ∷ rest) c d (err x)
    file_deleted :
        (p : Bytes) (rest : List (Bytes × Bool)) (c b d : Conn S) (r : Result (Unit {0}))
        → delete w p c ≡ (b, ok tt)
        → Deletes rest b d r
        → Deletes ((p, false) ∷ rest) c d r
    file_failed :
        (p : Bytes) (rest : List (Bytes × Bool)) (c d : Conn S) (x : ClientError)
        → delete w p c ≡ (d, err x)
        → Deletes ((p, false) ∷ rest) c d (err x)

  -- The deletions after one that came to `q`.
  abbrev after_one : List (Bytes × Bool) → Conn S × Result (Unit {0}) → Conn S × Result (Unit {0})
  after_one rest q = elim q.1 [ err x ↦ (q.0, err x) | ok _ ↦ delete_found w parse_v6 rest q.0 ]

  Deletes-next :
      (p : Bytes) (d : Bool) (rest : List (Bytes × Bool)) (c : Conn S)
      → (q : Conn S × Result (Unit {0})) → (if d then remove_dir w p else delete w p) c ≡ q
      → ((b : Conn S)
          → Deletes rest b (delete_found w parse_v6 rest b).0 (delete_found w parse_v6 rest b).1)
      → Deletes ((p, d) ∷ rest) c (after_one rest q).0 (after_one rest q).1
  Deletes-next p true rest c (b, err x) h others = dir_failed p rest c b x h
  Deletes-next p true rest c (b, ok u) h others = dir_removed p rest c b _ _ h (others b)
  Deletes-next p false rest c (b, err x) h others = file_failed p rest c b x h
  Deletes-next p false rest c (b, ok u) h others = file_deleted p rest c b _ _ h (others b)

  delete_found-Deletes :
      (found : List (Bytes × Bool)) (c : Conn S)
      → Deletes found c (delete_found w parse_v6 found c).0 (delete_found w parse_v6 found c).1
  unfolding delete_found
  delete_found-Deletes [] c = finished c
  delete_found-Deletes ((p, d) ∷ found) c =
      Deletes-next p d found c _ refl (λ b. delete_found-Deletes found b)

  -- `RemoveDirRecursive` of a path other than the root and the working directory, that its parent's
  -- listing shows as the root of a tree of files. The server lists the directories of that tree, and
  -- their parent, in every state of a set that the client's listings do not leave; no entry is named
  -- "." or ".."; and the tree nests no deeper than the fuel. Then the walk ends, and the result is that
  -- of `RemoveDir` and `Delete` calls for the tree up to the first that fails, what is in a directory
  -- before it, and of two entries the later one first.
  pub remove_dir_recursive-removal_order :
      (n : ℕ) (root : Bytes) (es : List Entry) (t : Tree) (c : Conn S)
      → bytes_eq (clean root) (text ".") ≡ false
      → bytes_eq (clean root) (text "/") ≡ false
      → Lists w parse_v6 Good (parent_of (clean root)) es
      → find_entry (path_base (clean root)) es ≡ some (entry_of t)
      → Within n t
      → Served w parse_v6 Good (clean root) t
      → Good c
      → (d b : Conn S) × (r : Result (Unit {0})) × Good d
        × Deletes (removal_order (clean root) t) d b r
        × (remove_dir_recursive w parse_v6 n root c ≡ some (b, inr r))
  unfolding remove_dir_recursive
  remove_dir_recursive-removal_order n root es t c dot slash parent f i s g =
      let l = parent c g in
      let (d, good, same) =
        walk-Found t n (clean root) i s (list w parse_v6 (parent_of (clean root)) c).0 l.0 [] in
      (
        d,
        (delete_found w parse_v6 (removal_order (clean root) t) d).0,
        (delete_found w parse_v6 (removal_order (clean root) t) d).1,
        good,
        delete_found-Deletes (removal_order (clean root) t) d,
        ap (after_walk w parse_v6) (
              walk_from-found (list_beside w parse_v6) (collect w parse_v6) n root es (entry_of t)
                (c, []) dot slash l.1 f
              ∙ same)
            ∙ ap (λ found. after_walk w parse_v6 (some ((d, found), none)))
                (append-nil (removal_order (clean root) t)),
      )
